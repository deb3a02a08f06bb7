-- ===== src/Startup/NotifierEnds.antt =====
-- cmd/email-notifier/main.go: how it ends.
use pingerus.Base.{
  Option, none, ◌++◌, ◌≡◌, refl, sym, subst, not, ◌||◌, inl, inr, Bool, true, false, some, List, [],
  ◌∷◌, Bool-cases, if◌then◌else◌,
}
use pingerus.Text.{codes}
use pingerus.World.Errors.{canceled, errors_is, Result, ok, err}
use pingerus.World.Laws.{Result-cases}
use pingerus.Config.{as_otel_config}
use pingerus.Config.EmailNotifier as NotifierConfig
use pingerus.Postgres.Db.{PoolConfig, pool_config}
use pingerus.Startup.{
  Act, Ended, returned, panicked, signals, tracer, pool, opened, closed, doing, return, after_defer,
  Cause, interrupted, answered, select,
}
use pingerus.Startup.Setup.{
  Packages, Tracing, Db, shutdown, new_logger, setup_otel, new_db, starts, bootstrap_consumer,
}
use pingerus.Startup.Clean.{replay}
use pingerus.Startup.EmailNotifier

abbrev pub has_failed : Result (Unit {0}) → Bool
has_failed (ok u) = false
has_failed (err e) = true

-- main panics, or it returns and has closed what it opened.
abbrev pub Ends : Bool → Ended × List Act → Type 0
Ends true x = x.0 ≡ panicked
Ends false x = (x.0 ≡ returned) × (replay x.1 [] ≡ some [])

-- The closer and the trace before NewDB: no closer, or one with a provider or without.
abbrev closer_of : Option Bool → Option Tracing
closer_of none = none
closer_of (some b) = some (record { provider = b })

abbrev trace_of : Option Bool → List Act
trace_of none = opened signals ∷ []
trace_of (some true) = opened signals ∷ opened tracer ∷ []
trace_of (some false) = opened signals ∷ []

abbrev is_missing : Option Bool → Bool
is_missing none = true
is_missing (some b) = false

module _ {V F L : Type 0} (o : Packages V F L) (cfg : NotifierConfig.Config F) (db : Db) where
  -- Whether the consumer can be started.
  abbrev on : Bool
  on = starts o (NotifierConfig.as_consumer_config cfg.kafka_in)

  -- The end of main after NewDB.
  abbrev Finishes : Cause → Bool → Option Bool → Type 0
  Finishes cause ready r = Ends (is_missing r || not ready) (
      after_defer (doing (closed signals) return) (
        after_defer (shutdown (closer_of r))
          (EmailNotifier.with_db o cause cfg (ok db) (trace_of r ++ opened pool ∷ []))))

  stops : (cause : Cause) (r : Option Bool) → on ≡ false → Finishes cause false r
  unfolding select shutdown replay bootstrap_consumer
  stops cause none off = rw off refl
  stops cause (some true) off = rw off refl
  stops cause (some false) off = rw off refl

  finishes : (cause : Cause) (r : Option Bool) → on ≡ true → Finishes cause true r
  unfolding select shutdown replay bootstrap_consumer
  finishes interrupted none on = rw on refl
  finishes interrupted (some true) on = rw on (refl, refl)
  finishes interrupted (some false) on = rw on (refl, refl)
  finishes (answered (ok u)) none on = rw on refl
  finishes (answered (ok u)) (some true) on = rw on (refl, refl)
  finishes (answered (ok u)) (some false) on = rw on (refl, refl)
  finishes (answered (err e)) none on = elim (Bool-cases (errors_is e canceled)) [
    | inl cut ↦ rw (on, cut) refl
    | inr failed ↦ rw (on, failed) refl
  ]
  finishes (answered (err e)) (some true) on = elim (Bool-cases (errors_is e canceled)) [
    | inl cut ↦ rw (on, cut) (refl, refl)
    | inr failed ↦ rw (on, failed) (refl, refl)
  ]
  finishes (answered (err e)) (some false) on = elim (Bool-cases (errors_is e canceled)) [
    | inl cut ↦ rw (on, cut) (refl, refl)
    | inr failed ↦ rw (on, failed) (refl, refl)
  ]

  ends : (cause : Cause) (r : Option Bool) → Finishes cause on r
  ends cause r = elim (Bool-cases on) [
    | inl ready ↦ subst (λ b. Finishes cause b r) (sym ready) (finishes cause r ready)
    | inr off ↦ subst (λ b. Finishes cause b r) (sym off) (stops cause r off)
  ]

module _ {V F L : Type 0} (o : Packages V F L) (cfg : NotifierConfig.Config F) where
  -- Whether SetupOTel fails.
  abbrev pub no_tracing : Bool
  no_tracing = if cfg.otel.enable then has_failed (o.exporter cfg.otel.otlp_endpoint) else false

  module _ (loads : NotifierConfig.load o.viper (codes "../config/email-notifier.yaml") ≡ ok cfg)
      (builds : new_logger o (NotifierConfig.logger_config cfg.log) ≡ ok tt) (pcfg : PoolConfig)
      (parses : o.parse_config cfg.db.dsn ≡ ok pcfg)
      (creates : o.new_with_config (pool_config cfg.db pcfg) ≡ ok tt)
      (pings : o.ping (pool_config cfg.db pcfg) ≡ ok tt) where
    -- Where the configuration is read, the logger is built and the database answers: if the exporter of
    -- traces is wanted and cannot be made, or the configuration has no broker or makes a reader that
    -- kafka-go refuses, main panics; otherwise it returns, and has closed what it opened, each thing
    -- after those opened that use it, while what was started beside main may still run.
    pub main-Ends :
        (cause : Cause)
        → Ends
            (no_tracing || not (starts o (NotifierConfig.as_consumer_config cfg.kafka_in)))
            (EmailNotifier.main o cause [])
    unfolding EmailNotifier.main setup_otel new_db as_otel_config
    main-Ends cause =
        let db : Db = record { query_timeout = cfg.db.query_timeout } in
        elim (Bool-cases cfg.otel.enable) [
          | inl wanted ↦ elim (Result-cases (o.exporter cfg.otel.otlp_endpoint)) [
            | inl (u, made) ↦
                rw (loads, builds, wanted, made, parses, creates, pings)
                  (ends o cfg db cause (some true))
            | inr (x, failed) ↦
                rw (loads, builds, wanted, failed, parses, creates, pings)
                  (ends o cfg db cause none)
          ]
          | inr off ↦
              rw (loads, builds, off, parses, creates, pings) (ends o cfg db cause (some false))
        ]
