-- ===== src/Startup/Ends.antt =====
-- The traces of the four programs.
use pingerus.Base.{
  ◌≡◌, sym, Bool, inl, inr, Bool-cases, refl, true, false, some, List, [], ◌∷◌, ◌++◌,
}
use pingerus.Text.{codes}
use pingerus.World.Errors.{errors_is, canceled, ok, err}
use pingerus.Config.{as_otel_config}
use pingerus.Config.PingWorker as WorkerConfig
use pingerus.Config.Scheduler as SchedulerConfig
use pingerus.Startup.{
  Act, Ended, Cause, interrupted, answered, select, signals, tracer, pool, opened, closed, return,
  doing,
}
use pingerus.Startup.Setup.{
  Packages, Db, shutdown, new_logger, setup_otel, starts, bootstrap_consumer,
}
use pingerus.Startup.Clean.{
  AfterDefer, replay, IsIdle, IsClean, or_fatal-ends, or_fatal_known-ends, setup_otel-ends,
  new_db-ends,
}
use pingerus.Startup.PingWorker
use pingerus.Startup.Scheduler

-- The trace before NewDB, with a provider of traces or without.
abbrev trace_of : Bool → List Act
trace_of true = opened signals ∷ opened tracer ∷ []
trace_of false = opened signals ∷ []

-- What holds of a trace once the deferred `stop` has run.
abbrev Ends : Type 0 → Ended × List Act → Type 0
Ends Panics = AfterDefer (doing (closed signals) return) (IsClean IsIdle Panics)

-- The configuration was read, and the consumer cannot be started with it.
abbrev pub IsMisread : {V F L : Type 0} → Packages V F L → Type 0
IsMisread {F} o =
    (cfg : WorkerConfig.Config F) × (WorkerConfig.load o.viper (codes "../config/ping-worker.yaml")
      ≡ ok cfg)
    × (starts o (WorkerConfig.as_consumer_config cfg.kafka_in) ≡ false)

module _ {V F L : Type 0} (o : Packages V F L) (cause : Cause) where
  module _ (cfg : WorkerConfig.Config F)
      (loads : WorkerConfig.load o.viper (codes "../config/ping-worker.yaml") ≡ ok cfg) where
    Served : Bool → Db → Type 0
    Served b db =
        AfterDefer (shutdown (some (record { provider = b }))) (Ends (IsMisread o))
          (PingWorker.with_db o cause cfg (ok db) (trace_of b ++ opened pool ∷ []))

    not_started :
        (b : Bool) (db : Db)
        → starts o (WorkerConfig.as_consumer_config cfg.kafka_in) ≡ false
        → Served b db
    unfolding Served select shutdown replay bootstrap_consumer
    not_started true db off = rw off (cfg, loads, off)
    not_started false db off = rw off (cfg, loads, off)

    goes_on :
        (c : Cause) (b : Bool) (db : Db)
        → starts o (WorkerConfig.as_consumer_config cfg.kafka_in) ≡ true
        → c ≡ cause
        → Served b db
    unfolding Served select shutdown replay bootstrap_consumer
    goes_on interrupted true db on e = rw (sym e, on) refl
    goes_on interrupted false db on e = rw (sym e, on) refl
    goes_on (answered (ok u)) true db on e = rw (sym e, on) refl
    goes_on (answered (ok u)) false db on e = rw (sym e, on) refl
    goes_on (answered (err x)) true db on e = elim (Bool-cases (errors_is x canceled)) [
      | inl cut ↦ rw (sym e, on, cut) refl
      | inr failed ↦ rw (sym e, on, failed) refl
    ]
    goes_on (answered (err x)) false db on e = elim (Bool-cases (errors_is x canceled)) [
      | inl cut ↦ rw (sym e, on, cut) refl
      | inr failed ↦ rw (sym e, on, failed) refl
    ]

    serves : (b : Bool) (db : Db) → Served b db
    serves b db = elim (Bool-cases (starts o (WorkerConfig.as_consumer_config cfg.kafka_in))) [
      | inl on ↦ goes_on cause b db on refl
      | inr off ↦ not_started b db off
    ]

    with_closer :
        (b : Bool)
        → Ends
            (IsMisread o)
            (PingWorker.with_closer o cause cfg (record { provider = b }) (trace_of b))
    unfolding Served shutdown replay
    with_closer true =
        new_db-ends (AfterDefer (shutdown (some (record { provider = true }))) (Ends (IsMisread o)))
          o cfg.db (PingWorker.with_db o cause cfg) (trace_of true) (λ e. refl) (λ e. refl)
          (serves true)
    with_closer false =
        new_db-ends
          (AfterDefer (shutdown (some (record { provider = false }))) (Ends (IsMisread o))) o cfg.db
          (PingWorker.with_db o cause cfg) (trace_of false) (λ e. refl) (λ e. refl) (serves false)

    with_config : Ends (IsMisread o) (PingWorker.with_config o cause cfg (trace_of false))
    with_config =
        or_fatal-ends (Ends (IsMisread o)) (new_logger o (WorkerConfig.logger_config cfg.log))
          (λ _. setup_otel o (as_otel_config cfg.otel) (PingWorker.with_otel o cause cfg))
          (trace_of false) refl
          λ _.
            setup_otel-ends (Ends (IsMisread o)) o (as_otel_config cfg.otel)
              (PingWorker.with_otel o cause cfg) (trace_of false) (λ e. refl) (with_closer false)
              (with_closer true)

  pub ping_worker-IsClean : IsClean IsIdle (IsMisread o) (PingWorker.main o cause [])
  unfolding PingWorker.main
  ping_worker-IsClean =
      or_fatal_known-ends (Ends (IsMisread o))
        (WorkerConfig.load o.viper (codes "../config/ping-worker.yaml"))
        (PingWorker.with_config o cause) (trace_of false) refl with_config

module _ {V F L : Type 0} (o : Packages V F L) where
  scheduler_serves :
      (cause : Cause) (b : Bool) (db : Db)
      → AfterDefer
          (shutdown (some (record { provider = b })))
          (Ends ⊥)
          (Scheduler.with_db o cause (ok db) (trace_of b ++ opened pool ∷ []))
  unfolding select shutdown replay
  scheduler_serves interrupted true db = refl
  scheduler_serves interrupted false db = refl
  scheduler_serves (answered (ok u)) true db = refl
  scheduler_serves (answered (ok u)) false db = refl
  scheduler_serves (answered (err e)) true db = elim (Bool-cases (errors_is e canceled)) [
    | inl cut ↦ rw cut refl
    | inr failed ↦ rw failed refl
  ]
  scheduler_serves (answered (err e)) false db = elim (Bool-cases (errors_is e canceled)) [
    | inl cut ↦ rw cut refl
    | inr failed ↦ rw failed refl
  ]

  scheduler_with_closer :
      (cause : Cause) (cfg : SchedulerConfig.Config F) (b : Bool)
      → Ends ⊥ (Scheduler.with_closer o cause cfg (record { provider = b }) (trace_of b))
  unfolding shutdown replay
  scheduler_with_closer cause cfg true =
      new_db-ends (AfterDefer (shutdown (some (record { provider = true }))) (Ends ⊥)) o cfg.db
        (Scheduler.with_db o cause) (trace_of true) (λ e. refl) (λ e. refl)
        (scheduler_serves cause true)
  scheduler_with_closer cause cfg false =
      new_db-ends (AfterDefer (shutdown (some (record { provider = false }))) (Ends ⊥)) o cfg.db
        (Scheduler.with_db o cause) (trace_of false) (λ e. refl) (λ e. refl)
        (scheduler_serves cause false)

  pub scheduler-IsClean : (cause : Cause) → IsClean IsIdle ⊥ (Scheduler.main o cause [])
  unfolding Scheduler.main
  scheduler-IsClean cause =
      or_fatal-ends (Ends ⊥) (SchedulerConfig.load o.viper (codes "../config/scheduler.yaml"))
        (Scheduler.with_config o cause) (trace_of false) refl
        (λ cfg.
          or_fatal-ends (Ends ⊥) (new_logger o (SchedulerConfig.logger_config cfg.log))
            (λ _. setup_otel o (as_otel_config cfg.otel) (Scheduler.with_otel o cause cfg))
            (trace_of false) refl
            (λ _.
              setup_otel-ends (Ends ⊥) o (as_otel_config cfg.otel) (Scheduler.with_otel o cause cfg)
                (trace_of false) (λ e. refl) (scheduler_with_closer cause cfg false)
                (scheduler_with_closer cause cfg true)))
