-- ===== src/Startup/Scheduler.antt =====
-- cmd/scheduler/main.go
use pingerus.Base.{some}
use pingerus.Text.{codes}
use pingerus.World.Errors.{Result}
use pingerus.Config.{as_otel_config}
use pingerus.Config.Scheduler
use pingerus.Startup.{
  Main, Cause, signals, pool, metrics_server, producer, opened, closed, started, runner, return,
  doing, or_fatal, deferring, holding, select,
}
use pingerus.Startup.Setup.{Packages, Tracing, Db, shutdown, new_logger, setup_otel, new_db}

module _ {V F L : Type 0} (o : Packages V F L) (cause : Cause) where
  abbrev pub serve : Db → Main
  serve db = holding producer (
      doing (opened metrics_server)
        (doing (started runner) (select cause (doing (closed metrics_server) return))))

  abbrev pub with_db : Result Db → Main
  with_db r = or_fatal r (λ db. deferring (doing (closed pool) return) (serve db))

  abbrev pub with_closer : Scheduler.Config F → Tracing → Main
  with_closer cfg closer = deferring (shutdown (some closer)) (new_db o cfg.db with_db)

  abbrev pub with_otel : Scheduler.Config F → Result Tracing → Main
  with_otel cfg r = or_fatal r (with_closer cfg)

  abbrev pub with_config : Scheduler.Config F → Main
  with_config cfg =
      or_fatal (new_logger o (Scheduler.logger_config cfg.log))
        (λ _. setup_otel o (as_otel_config cfg.otel) (with_otel cfg))

  -- main
  unfoldable pub main : Main
  unfolding new_logger setup_otel shutdown new_db select Scheduler.load
  main =
      holding signals
        (or_fatal (Scheduler.load o.viper (codes "../config/scheduler.yaml")) with_config)
