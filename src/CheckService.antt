-- ===== src/CheckService.antt =====
-- internal/services/api-gateway/check/usecase.go: the checks of a user behind the API.
pub mod Api
pub mod Isolation
pub mod Requests
pub mod Answers
pub mod Updates
pub mod Creation
use pingerus.Base.{ℕ, ◌*◌, not, Bool, true, List, [], none, if◌then◌else◌}
use pingerus.Base.Int.{ℤ, pos, int_eq, ltb_ℤ}
use pingerus.Text.{Text}
use pingerus.World.{Op, background, now, raise, pure, ◌>>=◌, ◌>>◌}
use pingerus.World.Errors.{sentinel, forbidden, invalid_interval}
use pingerus.World.Rows.{Check}
use pingerus.Postgres.Checks
use pingerus.Postgres.Checks.{second}

unfoldable pub create : ℤ → Text → ℤ → Op Check
unfolding now ◌>>=◌
create owner_id url interval = do
  at ← now
  Checks.create (record {
    id = pos 0;
    user_id = owner_id;
    name = [];
    url = url;
    interval = interval;
    active = true;
    last_status = none;
    next_run = at;
    created_at = 0;
    updated_at = at;
  })

unfoldable pub get : ℤ → ℤ → Op Check
unfolding ◌>>=◌
get requester_id id = do
  c ← Checks.get_by_id id
  if not (int_eq c.user_id requester_id) then raise (sentinel forbidden) else pure c

-- 10 * time.Second
abbrev pub min_interval : ℤ
min_interval = pos (10 * second)

unfoldable pub update : ℤ → Check → Op Check
unfolding now ◌>>=◌
update requester_id upd = do
  cur ← Checks.get_by_id upd.id
  if not (int_eq cur.user_id requester_id)
      then raise (sentinel forbidden)
      else if ltb_ℤ upd.interval min_interval
      then raise (sentinel invalid_interval)
      else do
        at ← now
        let changed = record upd { user_id = requester_id; updated_at = at }
        Checks.update background changed
        pure changed

unfoldable pub delete : ℤ → ℤ → Op (Unit {0})
unfolding ◌>>=◌
delete requester_id id = do
  cur ← Checks.get_by_id id
  if not (int_eq cur.user_id requester_id) then raise (sentinel forbidden) else Checks.delete id

unfoldable pub list_by_user : ℤ → Op (List Check)
list_by_user requester_id = Checks.list_by_user requester_id
