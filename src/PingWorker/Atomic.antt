-- ===== src/PingWorker/Atomic.antt =====
-- A change of status and the message about it are written together.
use pingerus.Base.{◌≤◌, ◌≡◌, refl, Bool, some, ◌∷◌, arith, exists, modify, if◌then◌else◌}
use pingerus.Base.Int.{ℤ, pos}
use pingerus.World.{World, with_tx}
use pingerus.World.Errors.{ok}
use pingerus.World.Rows.{Time, Check, Run, Message, created, Tables}
use pingerus.Postgres.Checks
use pingerus.Postgres.Checks.{has_id, set_status}
use pingerus.Postgres.Runs
use pingerus.Postgres.Outbox
use pingerus.Postgres.Outbox.{has_key}
use pingerus.Postgres.Transactor.Atomic.{Ends, bind-Ends, timed-Ends, timed-IsForward, Ends-mono}
use pingerus.World.Forward.{IsForward}
use pingerus.PingWorker.{
  Outside, StatusChangedPayload, kind_status_changed, status_key, old_status, record_change, run_of,
  save_run, save_status, save_message,
}

-- The payload of the message about a change.
abbrev pub payload_of : Check → Bool → Time → StatusChangedPayload
payload_of chk status at = record {
  check_id = chk.id;
  old = old_status chk.last_status;
  new = status;
  at = at;
}

abbrev pub message_of : Outside → Check → Bool → Time → Time → Message
message_of out chk status at started = record {
  idempotency_key = status_key chk.id at;
  kind = kind_status_changed;
  payload = out.marshal (payload_of chk status at);
  status = created;
  created_at = started;
  updated_at = started;
}

-- What a recorded change writes: the run, the status of the check, and the message, unless one with
-- its key is there already; the time in the key and the payload is one since the transaction started.
pub record Recorded (out : Outside) (chk : Check) (status : Bool) (started : Time) (t u : Tables)
    : Type 0 where
  pub run : Run
  pub at : Time
  pub not_before : started ≤ at
  pub run_check : run.check_id ≡ chk.id
  pub run_status : run.status ≡ status
  pub runs : u.runs ≡ run ∷ t.runs
  pub checks : u.checks ≡ modify (has_id chk.id) (set_status (some status) started) t.checks
  pub outbox : u.outbox ≡ (
      if exists (has_key (status_key chk.id at)) t.outbox
      then t.outbox
      else message_of out chk status at started ∷ t.outbox)

module _ (chk : Check) (status : Bool) (base t : Tables) (started : Time) (v : World)
    (same : v.db ≡ base) (tx : v.tx ≡ some (record { started = started; view = t })) where
  save_run-Ends :
      (code latency : ℤ)
      → Ends
          (λ a u.
            (at : Time) × (v.clock ≤ at)
            × (Runs.insert_row (run_of chk status code latency at) started t ≡ (ok a, u)))
          base
          started
          (save_run chk status code latency with_tx v)
  unfolding save_run Runs.insert
  save_run-Ends code latency =
      timed-Ends "insert run" (λ at. Runs.insert_row (run_of chk status code latency at)) base t
        started v same tx

  save_status-Ends :
      Ends
        (λ a u.
          (at : Time) × (v.clock ≤ at)
          × (Checks.update_row chk.id (some status) started t ≡ (ok a, u)))
        base
        started
        (save_status chk status with_tx v)
  unfolding save_status Checks.update
  save_status-Ends =
      timed-Ends "update check" (λ _. Checks.update_row chk.id (some status)) base t started v same
        tx

  save_message-Ends :
      (out : Outside)
      → Ends
          (λ a u.
            (at : Time) × (v.clock ≤ at)
            × (Outbox.insert_row
                  (status_key chk.id at)
                  kind_status_changed
                  (out.marshal (payload_of chk status at))
                  started
                  t
                ≡ (ok a, u)))
          base
          started
          (save_message out chk status with_tx v)
  unfolding save_message Outbox.enqueue
  save_message-Ends out =
      timed-Ends "outbox enqueue"
        (λ at.
          Outbox.insert_row (status_key chk.id at) kind_status_changed
            (out.marshal (payload_of chk status at)))
        base t started v same tx

module _ (out : Outside) (chk : Check) (status : Bool) (code latency : ℤ) where
  three_writes :
      (started at₁ at : Time) (since : started ≤ at) (n : ℤ) (a b : Unit {0}) (t t₁ t₂ t₃ : Tables)
      → Runs.insert_row (run_of chk status code latency at₁) started t ≡ (ok n, t₁)
      → Checks.update_row chk.id (some status) started t₁ ≡ (ok a, t₂)
      → Outbox.insert_row
          (status_key chk.id at)
          kind_status_changed
          (out.marshal (payload_of chk status at))
          started
          t₂
        ≡ (ok b, t₃)
      → Recorded out chk status started t t₃
  unfolding Runs.insert_row Checks.update_row Outbox.insert_row
  three_writes started at₁ at since n a b t t₁ t₂ t₃ e₁ e₂ e₃ = record {
    not_before = since;
    run = record (run_of chk status code latency at₁) { id = pos t.run_seq };
    at = at;
    run_check = refl;
    run_status = refl;
    runs = ground arith;
    checks = ground arith;
    outbox = ground arith;
  }

  save_run-IsForward : IsForward (save_run chk status code latency with_tx)
  unfolding save_run Runs.insert
  save_run-IsForward =
      timed-IsForward "insert run" (λ at. Runs.insert_row (run_of chk status code latency at))

  save_status-IsForward : IsForward (save_status chk status with_tx)
  unfolding save_status Checks.update
  save_status-IsForward =
      timed-IsForward "update check" (λ _. Checks.update_row chk.id (some status))

  pub record_change-Ends :
      (w v : World) (started : Time)
      → v.db ≡ w.db
      → v.tx ≡ some (record { started = started; view = w.db })
      → started ≤ v.clock
      → Ends
          (λ _ u. Recorded out chk status started w.db u)
          w.db
          started
          (record_change out chk status code latency with_tx v)
  unfolding record_change
  record_change-Ends w v started same tx since =
      bind-Ends _ w.db started _ (save_run chk status code latency with_tx) _ v save_run-IsForward
        (save_run-Ends chk status w.db w.db started v same tx code latency)
        λ n t₁ v₁ same₁ tx₁ later₁ (at₁, _, e₁).
          bind-Ends _ w.db started _ (save_status chk status with_tx) _ v₁ save_status-IsForward
            (save_status-Ends chk status w.db t₁ started v₁ same₁ tx₁)
            λ a t₂ v₂ same₂ tx₂ later₂ (_, _, e₂).
              Ends-mono _ _ w.db started
                (λ b t₃ (at, later₃, e₃).
                  three_writes started at₁ at (omega arith) n a b w.db t₁ t₂ t₃ e₁ e₂ e₃)
                _ _ (save_message-Ends chk status w.db t₂ started v₂ same₂ tx₂ out)
