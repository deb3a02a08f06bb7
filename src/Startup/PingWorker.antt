-- ===== src/Startup/PingWorker.antt =====
-- cmd/ping-worker/main.go
use pingerus.Base.{ℕ, ◌*◌, some}
use pingerus.Text.{codes}
use pingerus.World.Errors.{Result}
use pingerus.Config.{as_otel_config}
use pingerus.Config.PingWorker
use pingerus.Startup.{
  Main, Cause, signals, pool, metrics_server, producer, opened, closed, started, outbox_workers,
  controller, return, doing, or_fatal, deferring, holding, select,
}
use pingerus.Startup.Setup.{
  Packages, Tracing, Db, shutdown, new_logger, setup_otel, new_db, bootstrap_consumer,
}

-- The settings of the outbox in `wire`.
abbrev second : ℕ
second = 1000000000

module _ {V F L : Type 0} (o : Packages V F L) (cause : Cause) where
  -- What follows when the database is there: metrics, Kafka, the wiring, the select and the end.
  abbrev pub serve : PingWorker.Config F → Db → Main
  serve cfg db = doing (opened metrics_server) (
      bootstrap_consumer o (PingWorker.as_consumer_config cfg.kafka_in) (
        holding producer (
          doing (started (outbox_workers 20 100 (2 * second) (30 * second)))
            (doing (started controller) (select cause (doing (closed metrics_server) return))))))

  abbrev pub with_db : PingWorker.Config F → Result Db → Main
  with_db cfg r = or_fatal r (λ db. deferring (doing (closed pool) return) (serve cfg db))

  abbrev pub with_closer : PingWorker.Config F → Tracing → Main
  with_closer cfg closer = deferring (shutdown (some closer)) (new_db o cfg.db (with_db cfg))

  abbrev pub with_otel : PingWorker.Config F → Result Tracing → Main
  with_otel cfg r = or_fatal r (with_closer cfg)

  abbrev pub with_config : PingWorker.Config F → Main
  with_config cfg =
      or_fatal (new_logger o (PingWorker.logger_config cfg.log))
        (λ _. setup_otel o (as_otel_config cfg.otel) (with_otel cfg))

  -- main
  unfoldable pub main : Main
  unfolding new_logger setup_otel shutdown new_db bootstrap_consumer select PingWorker.load
  main =
      holding signals
        (or_fatal (PingWorker.load o.viper (codes "../config/ping-worker.yaml")) with_config)
