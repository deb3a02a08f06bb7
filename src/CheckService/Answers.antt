-- ===== src/CheckService/Answers.antt =====
-- What each operation of the usecase answers, and what it writes, when no call of the driver fails.
use pingerus.Base.{
  ◌≡◌, not, Option, none, some, [], arith, find?, modify, select, if◌then◌else◌, Option-cases, inl,
  inr, exists-find?,
}
use pingerus.Base.Int.{ℤ, int_eq, ltb_ℤ}
use pingerus.World.{World, now}
use pingerus.World.Errors.{Result, ok, err, sentinel, not_found, forbidden, invalid_interval}
use pingerus.World.Laws.{interact_quiet}
use pingerus.World.Rows.{Check, CheckRow}
use pingerus.Postgres.Checks
use pingerus.Postgres.Checks.{has_id, set_status, scan_full}
use pingerus.CheckService
use pingerus.CheckService.{min_interval}

-- The check that a requester may see under an identifier, or the reason why there is none.
pub permitted : ℤ → Option CheckRow → Result CheckRow
permitted uid none = err (sentinel not_found)
permitted uid (some r) = if int_eq r.user_id uid then ok r else err (sentinel forbidden)

abbrev pub row_of : ℤ → World → Option CheckRow
row_of id w = find? (has_id id) w.db.checks

abbrev pub scanned : Result CheckRow → Result Check
scanned (ok r) = ok (scan_full r)
scanned (err e) = err e

module _ (uid : ℤ) (w : World) (quiet : w.script ≡ []) where
  -- With no failing call, the request for a check answers with the row under the identifier if the
  -- requester owns it, and with not found or forbidden otherwise; nothing is changed.
  pub get-permitted :
      (id : ℤ) → CheckService.get uid id w ≡ (scanned (permitted uid (row_of id w)), w)
  unfolding CheckService.get Checks.get_by_id permitted
  get-permitted id = ground (arith, interact_quiet w quiet)

  abbrev changed : Check → Check
  changed upd = record upd { user_id = uid; updated_at = w.clock }

  -- What an update leaves: the status of one row, and the time, are new.
  abbrev pub after_update : Check → World
  after_update upd = record w {
    db = record w.db {
      checks = modify (has_id upd.id) (set_status upd.last_status w.clock) w.db.checks;
    };
  }

  pub answer_update : Check → Result CheckRow → Result Check × World
  answer_update upd (err e) = (err e, w)
  answer_update upd (ok r) =
      if ltb_ℤ upd.interval min_interval
      then (err (sentinel invalid_interval), w)
      else (ok (changed upd), after_update upd)

  -- With no failing call, an update answers not found, forbidden or interval too short and changes
  -- nothing, or answers with the check as asked for, owned by the requester, and replaces the status
  -- of the row.
  pub update-permitted :
      (upd : Check)
      → CheckService.update uid upd w ≡ answer_update upd (permitted uid (row_of upd.id w))
  unfolding CheckService.update Checks.get_by_id Checks.update permitted answer_update now
  update-permitted upd = ground (arith, interact_quiet w quiet)

  abbrev pub after_delete : ℤ → World
  after_delete id = record w {
    db = record w.db {
      checks = select (λ r. not (has_id id r)) w.db.checks;
      runs = select (λ r. not (int_eq r.check_id id)) w.db.runs;
      notifications = select (λ n. not (int_eq n.check_id id)) w.db.notifications;
    };
  }

  pub answer_delete : ℤ → Result CheckRow → Result (Unit {0}) × World
  answer_delete id (err e) = (err e, w)
  answer_delete id (ok r) = (ok tt, after_delete id)

  -- With no failing call, a deletion answers not found or forbidden and changes nothing, or removes
  -- the check with its runs and notifications.
  pub delete-permitted :
      (id : ℤ) → CheckService.delete uid id w ≡ answer_delete id (permitted uid (row_of id w))
  unfolding CheckService.delete Checks.get_by_id Checks.delete permitted answer_delete
  delete-permitted id = elim (Option-cases (row_of id w)) [
    | inl missing ↦ ground (arith, interact_quiet w quiet)
    | inr (r, stored) ↦
        ground (arith, interact_quiet w quiet, exists-find? (has_id id) w.db.checks {x = r})
  ]
