-- ===== src/Startup/EmailNotifier.antt =====
-- cmd/email-notifier/main.go
use pingerus.Base.{Option, none, some}
use pingerus.Text.{codes}
use pingerus.World.Errors.{Result, ok, err}
use pingerus.Config.{as_otel_config}
use pingerus.Config.EmailNotifier
use pingerus.Startup.{
  Main, Cause, signals, pool, metrics_server, opened, closed, started, controller, return, doing,
  or_fatal, deferring, holding, select,
}
use pingerus.Startup.Setup.{
  Packages, Tracing, Db, shutdown, new_logger, setup_otel, new_db, bootstrap_consumer,
}

-- The pointer that SetupOTel returns beside its error; the error itself is only a warning in the log.
abbrev pub pointer : Result Tracing → Option Tracing
pointer (ok closer) = some closer
pointer (err e) = none

module _ {V F L : Type 0} (o : Packages V F L) (cause : Cause) where
  abbrev pub serve : EmailNotifier.Config F → Db → Main
  serve cfg db = doing (opened metrics_server) (
      bootstrap_consumer o (EmailNotifier.as_consumer_config cfg.kafka_in)
        (doing (started controller) (select cause (doing (closed metrics_server) return))))

  abbrev pub with_db : EmailNotifier.Config F → Result Db → Main
  with_db cfg r = or_fatal r (λ db. deferring (doing (closed pool) return) (serve cfg db))

  abbrev pub with_otel : EmailNotifier.Config F → Result Tracing → Main
  with_otel cfg r = deferring (shutdown (pointer r)) (new_db o cfg.db (with_db cfg))

  abbrev pub with_config : EmailNotifier.Config F → Main
  with_config cfg =
      or_fatal (new_logger o (EmailNotifier.logger_config cfg.log))
        (λ _. setup_otel o (as_otel_config cfg.otel) (with_otel cfg))

  -- main
  unfoldable pub main : Main
  unfolding new_logger setup_otel shutdown new_db bootstrap_consumer select EmailNotifier.load
  main =
      holding signals
        (or_fatal (EmailNotifier.load o.viper (codes "../config/email-notifier.yaml")) with_config)
