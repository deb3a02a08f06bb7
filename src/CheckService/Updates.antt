-- ===== src/CheckService/Updates.antt =====
-- What a successful update changes.
use pingerus.Base.{◌≡◌, refl, some, arith, modify, Option-cases, inl, inr}
use pingerus.Base.Int.{ℤ, int_eq_iff}
use pingerus.World.{World, interact, now}
use pingerus.World.Errors.{ok}
use pingerus.World.Laws.{db-interact}
use pingerus.World.Rows.{Check, CheckRow}
use pingerus.Postgres.Checks
use pingerus.Postgres.Checks.{has_id, set_status}
use pingerus.Postgres.Checks.Ids.{find?-modify}
use pingerus.CheckService
use pingerus.CheckService.Answers.{row_of}

-- The check that the caller gets back, the row before, and the row after.
pub record SettingsLost (upd c : Check) (before after : CheckRow) : Type 0 where
  pub says_url : c.url ≡ upd.url
  pub says_interval : c.interval ≡ upd.interval
  pub keeps_host : after.host ≡ before.host
  pub keeps_interval : after.interval_sec ≡ before.interval_sec
  pub keeps_next_run : after.next_run ≡ before.next_run
  pub keeps_active : after.active ≡ before.active
  pub writes_status : after.last_status ≡ upd.last_status

-- The worlds after one, two and three interactions with the world outside.
abbrev first : World → World
first w = (interact w).1

abbrev second : World → World
second w = (interact (first w)).1

abbrev third : World → World
third w = (interact (second w)).1

update_writes :
    (uid : ℤ) (upd c : Check) (w : World) (r : CheckRow)
    → row_of upd.id w ≡ some r
    → (CheckService.update uid upd w).0 ≡ ok c
    → (CheckService.update uid upd w).1.db.checks
      ≡ modify (has_id upd.id) (set_status upd.last_status (third w).clock) w.db.checks
unfolding CheckService.update Checks.get_by_id Checks.update now
update_writes uid upd c w r stored e =
    ground (arith, db-interact w, db-interact (first w), db-interact (second w))

-- An update that succeeds answers with the URL and the interval of the request, while the row keeps
-- its host, interval, next run and activity: only the last status is written.
pub update_loses_settings :
    (uid : ℤ) (upd c : Check) (w : World)
    → (CheckService.update uid upd w).0 ≡ ok c
    → (before : CheckRow) × (after : CheckRow) × (row_of upd.id w ≡ some before)
      × (row_of upd.id (CheckService.update uid upd w).1 ≡ some after)
      × (before.user_id ≡ uid)
      × SettingsLost upd c before after
unfolding CheckService.update Checks.get_by_id Checks.update now
update_loses_settings uid upd c w e = elim (Option-cases (row_of upd.id w)) [
  | inl missing ↦ absurd (ground (arith, db-interact w))
  | inr (r, stored) ↦ (
    r,
    set_status upd.last_status (third w).clock r,
    stored,
    rw (update_writes uid upd c w r stored e) (
        find?-modify upd.id (set_status upd.last_status (third w).clock) w.db.checks (λ x. refl)
          stored),
    ground (arith, db-interact w, int_eq_iff r.user_id uid),
    ground (arith, db-interact w),
  )
]
