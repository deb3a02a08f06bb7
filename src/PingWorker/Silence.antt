-- ===== src/PingWorker/Silence.antt =====
-- The handler of checks sends nothing to Kafka by itself.
use pingerus.Base.{some, Option-cases, ◌-◌, ◌∙◌, inl, inr, Bool, true, false, arith, if◌then◌else◌}
use pingerus.Base.Int.{ℤ, not_positive}
use pingerus.Text.{Text}
use pingerus.World.{World, Op, Context, background, with_tx, now, interact, attempt, wrapping}
use pingerus.World.Errors.{Result, ok, err}
use pingerus.World.Laws.{published-interact}
use pingerus.World.Rows.{Check, Run}
use pingerus.World.Silent.{
  IsSilent, statement-IsSilent, wrapping-IsSilent, pure-IsSilent, commit-IsSilent,
  rollback-IsSilent, bind-IsSilent,
}
use pingerus.Postgres.Checks
use pingerus.Postgres.Runs
use pingerus.Postgres.Outbox
use pingerus.Postgres.Transactor.{inject_tx, finish, in_tx}
use pingerus.PingWorker.Atomic.{payload_of}
use pingerus.PingWorker.{
  Outside, slim, has_changed, normalize_url, milliseconds, run_of, ping, save_run, save_status,
  save_message, record_change, settle, check_site, handle_check, status_key, kind_status_changed,
}

now-IsSilent : IsSilent now
unfolding now IsSilent
now-IsSilent w = published-interact w

attempt-IsSilent : {A : Type 0} (m : Op A) → IsSilent m → IsSilent (attempt m)
unfolding attempt IsSilent
attempt-IsSilent m h w = h w

if-IsSilent :
    {A : Type 0} (b : Bool) (m n : Op A) → IsSilent m → IsSilent n → IsSilent (if b then m else n)
if-IsSilent true m n h k = h
if-IsSilent false m n h k = k

finish-IsSilent : {A : Type 0} (r : Result A) → IsSilent (finish r)
unfolding finish IsSilent
finish-IsSilent (ok a) w = commit-IsSilent w
finish-IsSilent (err e) w = rollback-IsSilent w

abbrev begun : World → World
begun w =
    let v : World = (interact w).1 in
    record v { tx = some (record { started = v.clock; view = v.db }) }

insert-IsSilent : (c : Context) (r : Run) → IsSilent (Runs.insert c r)
unfolding Runs.insert
insert-IsSilent c r = statement-IsSilent c (Runs.insert_row r)

update-IsSilent : (c : Context) (chk : Check) → IsSilent (Checks.update c chk)
unfolding Checks.update
update-IsSilent c chk = statement-IsSilent c (Checks.update_row chk.id chk.last_status)

enqueue-IsSilent :
    (c : Context) (key : Text) (kind : ℤ) (payload : Text)
    → IsSilent (Outbox.enqueue c key kind payload)
unfolding Outbox.enqueue
enqueue-IsSilent c key kind payload = statement-IsSilent c (Outbox.insert_row key kind payload)

get_by_id-IsSilent : (id : ℤ) → IsSilent (Checks.get_by_id id)
unfolding Checks.get_by_id IsSilent
get_by_id-IsSilent id w = ground (arith, published-interact w)

in_tx-IsSilent :
    {A : Type 0} (f : Context → Op A)
    → ((c : Context) → IsSilent (f c))
    → IsSilent (in_tx background f)
unfolding in_tx inject_tx IsSilent
in_tx-IsSilent f h w = elim (Option-cases (interact w).0) [
  | inl fine ↦ rw fine (
      finish-IsSilent (f with_tx (begun w)).0 (f with_tx (begun w)).1
      ∙ h with_tx (begun w)
      ∙ published-interact w)
  | inr (x, fails) ↦ rw fails (published-interact w)
]

module _ (out : Outside) where
  ping-IsSilent : (url : Text) → IsSilent (ping out url)
  unfolding ping IsSilent
  ping-IsSilent url w = ground (arith, published-interact w)

  save_run-IsSilent :
      (chk : Check) (status : Bool) (code latency : ℤ) (c : Context)
      → IsSilent (save_run chk status code latency c)
  unfolding save_run
  save_run-IsSilent chk status code latency c = bind-IsSilent now _ now-IsSilent (λ at.
      wrapping-IsSilent "insert run" _ (insert-IsSilent c (run_of chk status code latency at)))

  save_status-IsSilent :
      (chk : Check) (status : Bool) (c : Context) → IsSilent (save_status chk status c)
  unfolding save_status
  save_status-IsSilent chk status c = bind-IsSilent now _ now-IsSilent (λ at.
      wrapping-IsSilent "update check" _ (
        update-IsSilent c
          (record chk { last_status = some status; updated_at = at; active = true })))

  save_message-IsSilent :
      (chk : Check) (status : Bool) (c : Context) → IsSilent (save_message out chk status c)
  unfolding save_message
  save_message-IsSilent chk status c = bind-IsSilent now _ now-IsSilent (λ at.
      wrapping-IsSilent "outbox enqueue" _ (
        enqueue-IsSilent c (status_key chk.id at) kind_status_changed
          (out.marshal (payload_of chk status at))))

  record_change-IsSilent :
      (chk : Check) (status : Bool) (code latency : ℤ) (c : Context)
      → IsSilent (record_change out chk status code latency c)
  unfolding record_change
  record_change-IsSilent chk status code latency c =
      bind-IsSilent (save_run chk status code latency c) _
        (save_run-IsSilent chk status code latency c)
        (λ _.
          bind-IsSilent (save_status chk status c) _ (save_status-IsSilent chk status c)
            (λ _. save_message-IsSilent chk status c))

  settle-IsSilent :
      (chk : Check) (status : Bool) (code latency : ℤ)
      → IsSilent (settle out chk status code latency)
  unfolding settle
  settle-IsSilent chk status code latency =
      if-IsSilent (has_changed chk.last_status status) _ _
        (bind-IsSilent (attempt (in_tx background (record_change out chk status code latency))) _
          (attempt-IsSilent _ (in_tx-IsSilent _ (record_change-IsSilent chk status code latency)))
          (λ _. pure-IsSilent tt))
        (pure-IsSilent tt)

  check_site-IsSilent : (chk : Check) → IsSilent (check_site out chk)
  unfolding check_site
  check_site-IsSilent chk = bind-IsSilent now _ now-IsSilent (λ start.
      bind-IsSilent (ping out (normalize_url chk.url)) _ (ping-IsSilent (normalize_url chk.url))
        (λ answer. bind-IsSilent now _ now-IsSilent (λ stop. bind-IsSilent now _ now-IsSilent (λ at.
          bind-IsSilent
            (attempt (
              Runs.insert background
                (run_of chk answer.1 answer.0 (milliseconds (stop - start)) at)))
            _
            (attempt-IsSilent _ (
              insert-IsSilent background
                (run_of chk answer.1 answer.0 (milliseconds (stop - start)) at)))
            (λ _. settle-IsSilent chk answer.1 answer.0 (milliseconds (stop - start)))))))

  -- Nothing is published by HandleCheck itself.
  pub handle_check-IsSilent : (id : ℤ) → IsSilent (handle_check out id)
  unfolding handle_check
  handle_check-IsSilent id = if-IsSilent (not_positive id) _ _ (pure-IsSilent tt) (
      bind-IsSilent (wrapping "get check" (Checks.get_by_id id)) _
        (wrapping-IsSilent "get check" _ (get_by_id-IsSilent id))
        (λ loaded. check_site-IsSilent (slim loaded)))
