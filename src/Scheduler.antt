-- ===== src/Scheduler.antt =====
-- internal/services/scheduler: Tick of usecase.go with the adapters of repo/adapters.go. The runner
-- calls it at each tick of its timer and counts what it answers.
pub mod Counts
pub mod Runner
use pingerus.Base.{ℕ, ◌+◌, false, Option, none, some, List, [], ◌∷◌, map, length}
use pingerus.Base.Int.{ℤ, pos, limit_or}
use pingerus.Text.{Text}
use pingerus.World.{World, Op, attempt, wrapping, pure, ◌>>=◌}
use pingerus.World.Errors.{Error, Result, ok, err}
use pingerus.World.Rows.{Check}
use pingerus.Postgres.Checks.Due
use pingerus.Kafka.{publish_check_requested}

-- What Tick answers: three counts and an error.
pub record Report : Type 0 where
  pub fetched : ℕ
  pub sent : ℕ
  pub errs : ℕ
  pub failure : Option Error

-- &check.Check{ID: id}
abbrev pub with_id : ℤ → Check
with_id id = record {
  id = id;
  user_id = pos 0;
  name = [];
  url = [];
  interval = pos 0;
  active = false;
  last_status = none;
  next_run = 0;
  created_at = 0;
  updated_at = 0;
}

-- CheckRepo.FetchDue of the adapters
unfoldable pub fetch_due : ℤ → Op (List Check)
unfolding ◌>>=◌
fetch_due limit = do list ← Due.fetch_due limit; pure (map (λ c. with_id c.id) list)

abbrev pub count_sent : Result (Unit {0}) → ℕ → ℕ
count_sent (ok _) n = n + 1
count_sent (err _) n = n

abbrev pub count_errs : Result (Unit {0}) → ℕ → ℕ
count_errs (ok _) n = n
count_errs (err _) n = n + 1

-- The loop over the checks that are due, with the two counts.
unfoldable pub publish_each : Text → ℕ → ℕ → List Check → Op (ℕ × ℕ)
unfolding publish_check_requested attempt ◌>>=◌
publish_each topic sent errs [] = pure (sent, errs)
publish_each topic sent errs (c ∷ cs) = do
  r ← attempt (publish_check_requested topic c.id)
  publish_each topic (count_sent r sent) (count_errs r errs) cs

-- Tick, once the checks are there or not.
unfoldable pub schedule : Text → Result (List Check) → Op Report
unfolding publish_each ◌>>=◌
schedule topic (err e) = pure (record { fetched = 0; sent = 0; errs = 1; failure = some e })
schedule topic (ok due) = do
  counts ← publish_each topic 0 0 due
  pure (record { fetched = length due; sent = counts.0; errs = counts.1; failure = none })

-- Usecase.Tick
unfoldable pub tick : Text → ℤ → Op Report
unfolding fetch_due schedule wrapping attempt ◌>>=◌
tick topic limit = do
  due ← attempt (wrapping "fetch due" (fetch_due (pos (limit_or 100 limit))))
  schedule topic due
