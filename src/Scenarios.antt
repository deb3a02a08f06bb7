-- ===== src/Scenarios.antt =====
-- A small deployment, and each theorem with conditions at a run of it.
pub mod Accounts
pub mod Ownership
pub mod Deliveries
pub mod Workers
pub mod Pipeline
pub mod Consuming
pub mod Mails
pub mod Gates
pub mod Brokers
pub mod Ticks
pub mod Traces
pub mod Startup
use pingerus.Base.{
  ◌⊎◌, ℕ, suc, ◌+◌, ◌*◌, exists, ◌≤◌, ◌≡◌, ◌≢◌, refl, true, false, none, some, List, [], ◌∷◌, arith,
  length, modify, if◌then◌else◌,
}
use pingerus.Base.Int.{ℤ, pos, int_eq}
use pingerus.Text.{codes}
use pingerus.Text.Decimal.{format_int}
use pingerus.World.{World, Op, Event, background, sleep, interact, now, calm}
use pingerus.World.Errors.{message, connection, ok, err}
use pingerus.World.Laws.{published-interact}
use pingerus.World.Rows.{User, CheckRow, Check, Tables, check_request}
use pingerus.Postgres.Checks
use pingerus.Postgres.Checks.{second, has_id, set_status, scan_full}
use pingerus.Postgres.Transactor.{in_tx}
use pingerus.Postgres.Transactor.Atomic.{AllOrNothing, in_tx-AllOrNothing}
use pingerus.CheckService
use pingerus.CheckService.Api.{PbCheck, CreateCheckRequest, Validators, create_check, get_check}
use pingerus.CheckService.Isolation.{Untouched}
use pingerus.CheckService.Answers.{
  permitted, row_of, scanned, answer_update, answer_delete, get-permitted, update-permitted,
  delete-permitted,
}
use pingerus.CheckService.Creation.{create_check-get_check}
use pingerus.CheckService.Updates.{SettingsLost, update_loses_settings}
use pingerus.Retry.{default_kafka_policy, rounds, run}
use pingerus.Retry.Bounds.{Verdict, run-Verdict, run_calls}
use pingerus.Scheduler.{tick}
use pingerus.Scheduler.Counts.{Reported, tick-Reported}
use pingerus.PingWorker.{Outside, slim, handle_check, record_change}
use pingerus.PingWorker.Atomic.{Recorded, record_change-Ends}
use pingerus.PingWorker.Messages.{ChangeSent, handle_check-ChangeSent}
use pingerus.PingWorker.Outcome.{SameButRuns, Outcome, handle_check-Outcome}
use pingerus.PingWorker.Calm.{answer_of, is_news, loaded, handle_check-calm}

abbrev user : ℕ → User
user n = record { id = pos n; email = codes "a@b.c"; password = []; created_at = 0; updated_at = 0 }

abbrev pub row : ℕ → ℕ → CheckRow
row id owner = record {
  id = pos id;
  user_id = pos owner;
  host = codes "example.org";
  interval_sec = 60;
  last_status = some false;
  next_run = 0;
  active = true;
  created_at = 0;
  updated_at = 0;
}

abbrev tables : Tables
tables = record {
  users = user 2 ∷ user 1 ∷ [];
  checks = row 2 2 ∷ row 1 1 ∷ [];
  runs = [];
  tokens = [];
  notifications = [];
  outbox = [];
  user_seq = 3;
  check_seq = 3;
  run_seq = 1;
  token_seq = 1;
  notification_seq = 1;
}

abbrev pub world : World
world = record {
  db = tables;
  tx = none;
  published = [];
  mails = [];
  clock = 90 * second;
  script = [];
}

-- The third call fails.
abbrev pub faulty : World
faulty = record world {
  script = fine ∷ fine ∷ record { elapsed = 5; fault = some connection } ∷ [];
}
  where
    fine : Event
    fine = record { elapsed = 7; fault = none }

abbrev outside : Outside
outside = record {
  accepts_url = λ _. true;
  response = λ _ _. some 200;
  marshal = λ p. format_int p.check_id;
}

abbrev pub accept_all : Validators
accept_all = record { create = λ _. true; by_id = λ _. true; update = λ _. true; list = λ _. true }

handle_check-Outcome_example :
    Outcome outside (pos 1) faulty.clock faulty.db (handle_check outside (pos 1) faulty).1.db
handle_check-Outcome_example = handle_check-Outcome outside (pos 1) faulty

handle_check-ChangeSent_example :
    SameButRuns faulty.db (handle_check outside (pos 1) faulty).1.db
    ⊎ ChangeSent outside (pos 1) faulty.clock faulty.db (handle_check outside (pos 1) faulty).1.db
handle_check-ChangeSent_example = handle_check-ChangeSent outside (pos 1) faulty λ id at later. refl

stored_1 : row_of (pos 1) world ≡ some (row 1 1)
unfolding int_eq
stored_1 = refl

handle_check-calm_example :
    ((handle_check outside (pos 1) (calm world)).1.db.checks ≡ (
      if is_news outside (loaded (row 1 1)) world
      then modify
          (has_id (pos 1))
          (set_status (some (answer_of outside (loaded (row 1 1)) world).1) world.clock)
          world.db.checks
      else world.db.checks))
    × (length (handle_check outside (pos 1) (calm world)).1.db.runs
        ≡ (if is_news outside (loaded (row 1 1)) world then 2 else 1) + length world.db.runs)
unfolding slim scan_full
handle_check-calm_example = handle_check-calm outside (pos 1) world (row 1 1) refl stored_1

in_tx-AllOrNothing_example :
    AllOrNothing
      (λ started _ u. Recorded outside (loaded (row 1 1)) true started world.db u)
      (record_change outside (loaded (row 1 1)) true (pos 200) (pos 3))
      world
      (in_tx background (record_change outside (loaded (row 1 1)) true (pos 200) (pos 3)) world)
in_tx-AllOrNothing_example =
    in_tx-AllOrNothing (λ started _ u. Recorded outside (loaded (row 1 1)) true started world.db u)
      (record_change outside (loaded (row 1 1)) true (pos 200) (pos 3)) world
      (λ v started e tx after.
        record_change-Ends outside (loaded (row 1 1)) true (pos 200) (pos 3) world v started e tx
          after)

-- A function that leaves a trace in the topic and fails each time.
abbrev failing : Op (Unit {0})
failing w = (
  err (message "no"),
  record w {
    published = record { topic = []; key = []; value = check_request (pos 1) } ∷ w.published;
  },
)

silent_sleep : (d : ℕ) (v : World) → length (sleep d v).1.published ≡ length v.published
unfolding sleep
silent_sleep d v = ground (arith, published-interact v)

run_calls_example :
    (suc (length world.published)
      ≤ length (run (default_kafka_policy (λ d. d)) failing world).1.published)
    × (length (run (default_kafka_policy (λ d. d)) failing world).1.published
        ≤ length world.published + rounds (default_kafka_policy (λ d. d)))
run_calls_example =
    run_calls (default_kafka_policy (λ d. d)) failing (λ v. length v.published) (λ v. refl)
      silent_sleep world

run-Verdict_example :
    Verdict
      (default_kafka_policy (λ d. d))
      failing
      world
      (run (default_kafka_policy (λ d. d)) failing world)
run-Verdict_example = run-Verdict (default_kafka_policy (λ d. d)) failing world

tick-Reported_example : Reported (codes "checks") faulty (tick (codes "checks") (pos 10) faulty)
tick-Reported_example = tick-Reported (codes "checks") (pos 10) faulty
