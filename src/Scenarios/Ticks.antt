-- ===== src/Scenarios/Ticks.antt =====
-- The timers of the small deployment.
use pingerus.Base.{◌*◌, [], ◌∷◌}
use pingerus.Base.Int.{pos}
use pingerus.Text.{codes}
use pingerus.Postgres.Checks.{second}
use pingerus.Scheduler.Runner.{Counters, Agree, run, run-Agree}
use pingerus.Scenarios.{faulty}

abbrev zeros : Counters
zeros = record { fetched = 0; sent = 0; errs = 0 }

run-Agree_example :
    Agree
      (codes "checks")
      (pos 10)
      zeros
      faulty
      (run (codes "checks") (pos 10) (5 * second ∷ second ∷ []) zeros faulty)
run-Agree_example = run-Agree (codes "checks") (pos 10) (5 * second ∷ second ∷ []) zeros faulty
