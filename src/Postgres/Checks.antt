-- ===== src/Postgres/Checks.antt =====
-- internal/repository/postgres/check_repo.go; `Due` has FetchDue.
pub mod Due
pub mod Ids
pub mod Calls
use pingerus.Base.{
  ℕ, suc, ◌+◌, ◌*◌, ◌/◌, ◌-◌, ◌^◌, ◌≡◌, Bool, true, false, not, ◌&&◌, Option, none, some, List, [],
  ◌∷◌, map, ltb, leb, ◌==◌, exists, find?, select, take, sort_by, modify, if◌then◌else◌,
}
use pingerus.Base.Int.{ℤ, pos, negsuc, int_eq, ltb_ℤ, limit_or}
use pingerus.Text.{Text, codes}
use pingerus.World.{
  Op, Context, background, with_tx, statement, begin, commit, wrapping, map_error, raise, pure,
  ◌>>=◌, ◌>>◌,
}
use pingerus.World.Errors.{
  Error, driver, sentinel, wrap, message, status, not_found, no_rows, pgx5_error, Result, ok, err,
}
use pingerus.World.Rows.{Time, User, Check, CheckRow, Run, Notification, Tables}
use pingerus.Postgres.Users.{is_no_rows}

-- time.Second
abbrev pub second : ℕ
second = 1000000000

-- int(c.Interval / time.Second), and 0 in the place of what is negative.
unfoldable pub interval_sec_of : ℤ → ℕ
interval_sec_of (pos d) = d / second
interval_sec_of (negsuc d) = 0

-- scanFull
unfoldable pub scan_full : CheckRow → Check
scan_full r = record {
  id = r.id;
  user_id = r.user_id;
  name = [];
  url = r.host;
  interval = pos (r.interval_sec * second);
  active = r.active;
  last_status = r.last_status;
  next_run = r.next_run;
  created_at = r.created_at;
  updated_at = r.updated_at;
}

-- The errors of scanFull.
unfoldable pub scan_error : Error → Error
unfolding is_no_rows
scan_error e = if is_no_rows e then sentinel not_found else wrap "scan check" e

-- qInsert: the user must exist (REFERENCES users), and interval_sec is an INT.
unfoldable pub insert_row : ℤ → Text → ℕ → Time → Tables → Result CheckRow × Tables
insert_row user_id host interval_sec at t =
    if not (ltb interval_sec (2 ^ 31))
    then (err (driver (pgx5_error 22003)), t)
    else if exists (λ u. int_eq u.id user_id) t.users
    then (ok row, record t { checks = row ∷ t.checks; check_seq = suc t.check_seq })
    else (err (driver (pgx5_error 23503)), t)
  where
    row : CheckRow
    row = record {
      id = pos t.check_seq;
      user_id = user_id;
      host = host;
      interval_sec = interval_sec;
      last_status = none;
      next_run = at;
      active = true;
      created_at = at;
      updated_at = at;
    }

abbrev scanned : Result CheckRow → Result Check
scanned (ok r) = ok (scan_full r)
scanned (err e) = err (scan_error e)

-- QueryRow and scanFull on its row.
abbrev scanning {ℓ} : {T : Type ℓ} → Result CheckRow × T → Result Check × T
scanning (r, t) = (scanned r, t)

unfoldable pub create : Check → Op Check
unfolding statement insert_row interval_sec_of scan_full scan_error
create c w =
    scanning (statement background (insert_row c.user_id c.url (interval_sec_of c.interval)) w)

abbrev pub has_id : ℤ → CheckRow → Bool
has_id id r = int_eq r.id id

abbrev found {ℓ} : {A : Type ℓ} → Option A → Result A
found none = err (driver no_rows)
found (some a) = ok a

-- qGetByID
unfoldable pub select_by_id : ℤ → Time → Tables → Result CheckRow × Tables
select_by_id id at t = (found (find? (has_id id) t.checks), t)

unfoldable pub get_by_id : ℤ → Op Check
unfolding statement select_by_id scan_full scan_error
get_by_id id w = scanning (statement background (select_by_id id) w)

abbrev by_id_desc : CheckRow → CheckRow → Bool
by_id_desc a b = not (ltb_ℤ a.id b.id)

-- qListByUser
unfoldable pub select_by_user : ℤ → Time → Tables → Result (List Check) × Tables
unfolding scan_full
select_by_user user_id at t =
    (ok (map scan_full (sort_by by_id_desc (select (λ r. int_eq r.user_id user_id) t.checks))), t)

unfoldable pub list_by_user : ℤ → Op (List Check)
unfolding statement wrapping select_by_user
list_by_user user_id = wrapping "query checks" (statement background (select_by_user user_id))

abbrev pub set_status : Option Bool → Time → CheckRow → CheckRow
set_status last_status at r = record r { last_status = last_status; updated_at = at }

-- The UPDATE of CheckRepoImpl.Update: it sets the last status and nothing else of the check.
unfoldable pub update_row : ℤ → Option Bool → Time → Tables → Result (Unit {0}) × Tables
update_row id last_status at t =
    (ok tt, record t { checks = modify (has_id id) (set_status last_status at) t.checks })

unfoldable pub update : Context → Check → Op (Unit {0})
unfolding statement update_row
update ctx c = statement ctx (update_row c.id c.last_status)

-- qDelete, with ON DELETE CASCADE of the runs and notifications; the rows affected are counted.
unfoldable pub delete_row : ℤ → Time → Tables → Result Bool × Tables
delete_row id at t = (
  ok (exists (has_id id) t.checks),
  record t {
    checks = select (λ r. not (has_id id r)) t.checks;
    runs = select (λ r. not (int_eq r.check_id id)) t.runs;
    notifications = select (λ n. not (int_eq n.check_id id)) t.notifications;
  },
)

abbrev affected : Bool → Op (Unit {0})
affected true = pure tt
affected false = raise (sentinel not_found)

unfoldable pub delete : ℤ → Op (Unit {0})
unfolding statement wrapping delete_row ◌>>=◌
delete id = do any ← wrapping "delete check" (statement background (delete_row id)); affected any
