-- ===== src/PingWorker/Outcome.antt =====
-- What HandleCheck leaves in the tables, whatever the network answers and whichever calls fail.
use pingerus.Base.{
  ◌-◌, ◌≤◌, ◌≡◌, refl, ◌∙◌, ap, subst, Bool, true, some, ◌⊎◌, inl, inr, arith, find?, Bool-cases,
}
use pingerus.Base.Int.{ℤ, not_positive}
use pingerus.Text.{Text}
use pingerus.World.{World, Op, background, now, attempt, ◌>>=◌, ◌>>◌}
use pingerus.World.Errors.{ok}
use pingerus.World.Laws.{clock-interact, db-interact, db-now, after_bind, after_wrapped}
use pingerus.World.Forward.{IsForward, now-IsForward, statement-IsForward, attempt-IsForward}
use pingerus.World.Rows.{Time, Check, CheckRow, Run, Tables}
use pingerus.Postgres.Checks
use pingerus.Postgres.Checks.{has_id, scan_full}
use pingerus.Postgres.Checks.Calls.{db-get_by_id, get_by_id-Loaded}
use pingerus.Postgres.Runs
use pingerus.Postgres.Transactor.{in_tx}
use pingerus.Postgres.Transactor.Atomic.{in_tx-AllOrNothing}
use pingerus.PingWorker.{
  Outside, slim, has_changed, normalize_url, milliseconds, run_of, ping, record_change, settle,
  check_site, handle_check,
}
use pingerus.PingWorker.Atomic.{Recorded, record_change-Ends}

-- The tables agree but for the runs and their sequence.
pub record SameButRuns (t u : Tables) : Type 0 where
  pub checks : u.checks ≡ t.checks
  pub outbox : u.outbox ≡ t.outbox

-- A change of status that was recorded for a row since a time, after at most one run more.
pub record ChangeRecorded (out : Outside) (id : ℤ) (lo : Time) (t u : Tables) : Type 0 where
  pub row : CheckRow
  pub status : Bool
  pub started : Time
  pub before : Tables
  pub since : lo ≤ started
  pub stored : find? (has_id id) t.checks ≡ some row
  pub changed : has_changed row.last_status status ≡ true
  pub prepared : SameButRuns t before
  pub recorded : Recorded out (slim (scan_full row)) status started before u

abbrev pub Outcome : Outside → ℤ → Time → Tables → Tables → Type 0
Outcome out id lo t u = SameButRuns t u ⊎ ChangeRecorded out id lo t u

module _ (out : Outside) where
  db-ping : (url : Text) (w : World) → (ping out url w).1.db ≡ w.db
  unfolding ping
  db-ping url w = ground (arith, db-interact w)

  ping-IsForward : (url : Text) → IsForward (ping out url)
  unfolding ping
  ping-IsForward url = record { later = λ w. ground (arith, clock-interact w) }

  insert_background-IsForward : (r : Run) → IsForward (attempt (Runs.insert background r))
  unfolding Runs.insert
  insert_background-IsForward r = attempt-IsForward (statement-IsForward (Runs.insert_row r))

  insert_background-SameButRuns :
      (r : Run) (w : World) → SameButRuns w.db (attempt (Runs.insert background r) w).1.db
  unfolding attempt Runs.insert
  insert_background-SameButRuns r w = ground (arith, db-interact w)

  module _ (id : ℤ) (lo : Time) (t : Tables) (row : CheckRow)
      (stored : find? (has_id id) t.checks ≡ some row) where
    abbrev chk : Check
    chk = slim (scan_full row)

    in_tx-Outcome :
        (status : Bool) (code latency : ℤ) (w : World)
        → SameButRuns t w.db
        → has_changed row.last_status status ≡ true
        → lo ≤ w.clock
        → Outcome out id lo t (in_tx background (record_change out chk status code latency) w).1.db
    in_tx-Outcome status code latency w same changed on =
        elim (in_tx-AllOrNothing (λ started _ u. Recorded out chk status started w.db u)
          (record_change out chk status code latency) w
          λ v started e tx after.
            record_change-Ends out chk status code latency w v started e tx after) [
              | inl kept ↦ inl (rw kept same)
              | inr (_, started, begun, _, recorded) ↦ inr (record {
                since = omega arith;
                row = row;
                status = status;
                started = started;
                before = w.db;
                stored = stored;
                changed = changed;
                prepared = same;
                recorded = recorded;
              })
            ]

    settle-Outcome :
        (status : Bool) (code latency : ℤ) (w : World)
        → SameButRuns t w.db
        → lo ≤ w.clock
        → Outcome out id lo t (settle out chk status code latency w).1.db
    settle-Outcome status code latency w same on =
        elim (Bool-cases (has_changed row.last_status status)) [
          | inl news ↦
              unfold settle in
              rw (chk_status ∙ news) (in_tx-Outcome status code latency w same news on)
          | inr old ↦ unfold settle in rw (chk_status ∙ old) (inl same)
        ]
      where
        chk_status : has_changed chk.last_status status ≡ has_changed row.last_status status
        chk_status = unfold slim scan_full in refl

    abbrev Done : World → Type 0
    Done w = Outcome out id lo t w.db

    unmoved : {u : Tables} → u ≡ t → Outcome out id lo t u
    unmoved e = inl (record { checks = ap (λ x. x.checks) e; outbox = ap (λ x. x.outbox) e })

    -- The run is inserted, and the change settled.
    finish-Outcome :
        (answer : ℤ × Bool) (latency : ℤ) (at : Time) (w : World)
        → w.db ≡ t
        → lo ≤ w.clock
        → Done
            ((do
              attempt (Runs.insert background (run_of chk answer.1 answer.0 latency at))
              settle out chk answer.1 answer.0 latency)
              w).1
    finish-Outcome answer latency at w e on =
        let r : Run = run_of chk answer.1 answer.0 latency at in
        let same : SameButRuns t (attempt (Runs.insert background r) w).1.db =
          subst (λ x. SameButRuns x (attempt (Runs.insert background r) w).1.db) e
            (insert_background-SameButRuns r w) in
        after_bind Done (attempt (Runs.insert background r)) _ w (λ _ _. inl same)
          λ _ _.
            settle-Outcome answer.1 answer.0 latency _ same
              (let later = (insert_background-IsForward r).later w in omega arith)

    abbrev time_run : Time → ℤ × Bool → Op (Unit {0})
    time_run start answer = do
      stop ← now
      at ← now
      let latency = milliseconds (stop - start)
      attempt (Runs.insert background (run_of chk answer.1 answer.0 latency at))
      settle out chk answer.1 answer.0 latency

    time_run-Outcome :
        (start : Time) (answer : ℤ × Bool) (w : World)
        → w.db ≡ t
        → lo ≤ w.clock
        → Done (time_run start answer w).1
    time_run-Outcome start answer w e on =
        let e₁ = db-now w ∙ e in
        after_bind Done now _ w (λ _ _. unmoved e₁)
          λ stop _.
            let e₂ = db-now (now w).1 ∙ e₁ in
            after_bind Done now _ (now w).1 (λ _ _. unmoved e₂)
              λ at _.
                let later = now-IsForward.later w in
                let later' = now-IsForward.later (now w).1 in
                finish-Outcome answer (milliseconds (stop - start)) at _ e₂ (omega arith)

    check_site-Outcome : (w : World) → w.db ≡ t → lo ≤ w.clock → Done (check_site out chk w).1
    unfolding check_site
    check_site-Outcome w e on =
        let e₁ = db-now w ∙ e in
        after_bind Done now _ w (λ _ _. unmoved e₁)
          λ start _.
            let e₂ = db-ping (normalize_url chk.url) (now w).1 ∙ e₁ in
            after_bind Done (ping out (normalize_url chk.url)) _ (now w).1 (λ _ _. unmoved e₂)
              λ answer _.
                let later = now-IsForward.later w in
                let later' = (ping-IsForward (normalize_url chk.url)).later (now w).1 in
                time_run-Outcome start answer _ e₂ (omega arith)

  get_check-later : (id : ℤ) (w : World) → w.clock ≤ (Checks.get_by_id id w).1.clock
  unfolding Checks.get_by_id
  get_check-later id w = (statement-IsForward (Checks.select_by_id id)).later w

  loaded-Outcome :
      (id : ℤ) (w : World) (c : Check)
      → (Checks.get_by_id id w).0 ≡ ok c
      → Outcome out id w.clock w.db (check_site out (slim c) (Checks.get_by_id id w).1).1.db
  loaded-Outcome id w c e =
      let l = get_by_id-Loaded id w c e in
      rw l.scanned (
        check_site-Outcome id w.clock w.db l.row l.stored _ (db-get_by_id id w)
          (get_check-later id w))

  -- HandleCheck leaves the checks and the outbox as they were, or records one change: then the check
  -- was stored, its new status differs from the last one (or is the first success), and in one
  -- transaction, started since the call, its status was written and the message about it put into the
  -- outbox, with a key and a payload of a time since the transaction started, unless a message with this
  -- key was in the outbox.
  pub handle_check-Outcome :
      (id : ℤ) (w : World) → Outcome out id w.clock w.db (handle_check out id w).1.db
  unfolding handle_check
  handle_check-Outcome id w = elim (Bool-cases (not_positive id)) [
    | inl refused ↦ rw refused (inl (record { checks = refl; outbox = refl }))
    | inr valid ↦ rw valid (
        after_wrapped (λ v. Outcome out id w.clock w.db v.db) "get check" (Checks.get_by_id id) _ w
          (inl (record {
            checks = ap (λ x. x.checks) (db-get_by_id id w);
            outbox = ap (λ x. x.outbox) (db-get_by_id id w);
          }))
          (loaded-Outcome id w))
  ]
