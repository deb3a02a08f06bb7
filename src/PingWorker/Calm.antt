-- ===== src/PingWorker/Calm.antt =====
-- HandleCheck when no call fails: what the network's answer leads to.
use pingerus.Base.{
  suc, ◌+◌, ◌-◌, ◌≡◌, refl, Bool, true, false, some, ◌∷◌, arith, find?, exists, exists-find?,
  find?-passes, Bool-cases, inl, inr, modify, length, if◌then◌else◌,
}
use pingerus.Base.Int.{ℤ, pos, not_positive, int_eq, int_eq_iff}
use pingerus.World.{World, now, interact, wrapping, attempt, calm, ◌>>=◌}
use pingerus.World.Rows.{Check, CheckRow, Run}
use pingerus.Postgres.Checks
use pingerus.Postgres.Checks.{has_id, scan_full, set_status}
use pingerus.Postgres.Runs
use pingerus.Postgres.Outbox
use pingerus.PingWorker.{
  Outside, milliseconds, slim, has_changed, normalize_url, run_of, answered, ping, save_run,
  save_status, save_message, settle, check_site, handle_check,
}

module _ (out : Outside) (chk : Check) (status : Bool) (code latency : ℤ) (w : World)
    (known : exists (λ c. int_eq c.id chk.id) w.db.checks ≡ true) where
  settle_change :
      has_changed chk.last_status status ≡ true
      → ((settle out chk status code latency (calm w)).1.db.checks
          ≡ modify (has_id chk.id) (set_status (some status) w.clock) w.db.checks)
        × (length (settle out chk status code latency (calm w)).1.db.runs ≡ suc (length w.db.runs))
  unfolding settle interact save_run save_status save_message Runs.insert Checks.update
      Outbox.enqueue Runs.insert_row Outbox.insert_row
  settle_change h = ground (arith, known)

  settle_same :
      has_changed chk.last_status status ≡ false
      → (settle out chk status code latency (calm w)).1.db ≡ w.db
  unfolding settle
  settle_same h = ground arith

-- The status code and whether the site is up, as the ping finds it.
abbrev pub answer_of : Outside → Check → World → ℤ × Bool
answer_of out chk w =
    if out.accepts_url (normalize_url chk.url)
    then answered (out.response (normalize_url chk.url) w.clock)
    else (pos 0, false)

-- Whether the ping finds another status than the check carries.
abbrev pub is_news : Outside → Check → World → Bool
is_news out chk w = has_changed chk.last_status (answer_of out chk w).1

module _ (out : Outside) (chk : Check) (w : World)
    (known : exists (λ c. int_eq c.id chk.id) w.db.checks ≡ true) where
  abbrev first_run : Run
  first_run =
      run_of chk (answer_of out chk w).1 (answer_of out chk w).0 (milliseconds (w.clock - w.clock))
        w.clock

  abbrev with_first_run : World
  with_first_run = record w {
    db = record w.db {
      runs = record first_run { id = pos w.db.run_seq } ∷ w.db.runs;
      run_seq = suc w.db.run_seq;
    };
  }

  check_site-calm :
      check_site out chk (calm w)
      ≡ settle out chk
          (answer_of out chk w).1
          (answer_of out chk w).0
          (milliseconds (w.clock - w.clock))
          (calm with_first_run)
  unfolding check_site ping interact Runs.insert Runs.insert_row now ◌>>=◌ attempt
  check_site-calm = ground (arith, known)

  check_site_change :
      is_news out chk w ≡ true
      → ((check_site out chk (calm w)).1.db.checks
          ≡ modify (has_id chk.id) (set_status (some (answer_of out chk w).1) w.clock) w.db.checks)
        × (length (check_site out chk (calm w)).1.db.runs ≡ suc (suc (length w.db.runs)))
  check_site_change h = rw check_site-calm (
      settle_change out chk (answer_of out chk w).1 (answer_of out chk w).0
        (milliseconds (w.clock - w.clock)) with_first_run known h)

  check_site_same :
      is_news out chk w ≡ false
      → ((check_site out chk (calm w)).1.db.checks ≡ w.db.checks)
        × (length (check_site out chk (calm w)).1.db.runs ≡ suc (length w.db.runs))
  check_site_same h =
      rw
        (
          check_site-calm,
          settle_same out chk (answer_of out chk w).1 (answer_of out chk w).0
              (milliseconds (w.clock - w.clock)) with_first_run known h,
        )
        (refl, refl)

-- The check that the worker loads from a row.
abbrev pub loaded : CheckRow → Check
loaded row = slim (scan_full row)

module _ (out : Outside) (id : ℤ) (w : World) (row : CheckRow) (valid : not_positive id ≡ false)
    (stored : find? (has_id id) w.db.checks ≡ some row) where
  load_calm : handle_check out id (calm w) ≡ check_site out (loaded row) (calm w)
  unfolding handle_check Checks.get_by_id interact wrapping ◌>>=◌
  load_calm = ground arith

  known_row : exists (λ c. int_eq c.id (loaded row).id) w.db.checks ≡ true
  known_row =
      let same : row.id ≡ id =
        (int_eq_iff row.id id).0 (find?-passes (has_id id) w.db.checks {x = row} stored) in
      unfold slim scan_full in rw same (exists-find? (has_id id) w.db.checks {x = row} stored)

  -- A stored check with a positive identifier, and no failing call: the status of the ping is written
  -- to the check exactly when it is news, and the ping is entered in the table of runs once when it
  -- is no news and twice when it is.
  pub handle_check-calm :
      ((handle_check out id (calm w)).1.db.checks ≡ (
        if is_news out (loaded row) w
        then modify
            (has_id (loaded row).id)
            (set_status (some (answer_of out (loaded row) w).1) w.clock)
            w.db.checks
        else w.db.checks))
      × (length (handle_check out id (calm w)).1.db.runs
          ≡ (if is_news out (loaded row) w then 2 else 1) + length w.db.runs)
  handle_check-calm = elim (Bool-cases (is_news out (loaded row) w)) [
    | inl news ↦
        let (checks, runs) = check_site_change out (loaded row) w known_row news in
        rw (load_calm, news) (checks, omega (arith, runs))
    | inr old ↦
        let (checks, runs) = check_site_same out (loaded row) w known_row old in
        rw (load_calm, old) (checks, omega (arith, runs))
  ]
