-- ===== src/Startup/Clean.antt =====
-- How the programs end.
use pingerus.Base.{
  ℕ, ◌==◌, ◌≡◌, refl, inl, inr, Bool, true, false, not, ◌&&◌, Option, none, some, List, [], ◌∷◌,
  ◌++◌, exists, if◌then◌else◌, Bool-cases,
}
use pingerus.World.Errors.{Error, canceled, errors_is, Result, ok, err}
use pingerus.Config.{OtelConfig, DbConfig}
use pingerus.Postgres.Db.{PoolConfig, pool_config}
use pingerus.Startup.{
  after_defer, Resource, signals, logger, tracer, pool, metrics_server, consumer, producer,
  grpc_server, connection, http_server, Act, opened, closed, started, logged, Ended, returned,
  exited, panicked, Main, or_fatal, Cause, interrupted, answered, select,
}
use pingerus.Startup.Setup.{
  Packages, Tracing, Db, setup_otel, with_exporter, pinged, created, parsed, new_db,
}

-- The resources, numbered.
abbrev place : Resource → ℕ
place signals = 0
place logger = 1
place tracer = 2
place pool = 3
place metrics_server = 4
place consumer = 5
place producer = 6
place grpc_server = 7
place connection = 8
place http_server = 9

abbrev same : Resource → Resource → Bool
same a b = place a == place b

-- What is used by what of the things that are opened: the handlers of the metrics, of the consumer and of
-- the servers query the pool, and the server of HTTP calls through the connection. What was started
-- beside main is not among them: nobody waits for it, and it may use them still.
abbrev uses : Resource → Resource → Bool
uses metrics_server pool = true
uses consumer pool = true
uses grpc_server pool = true
uses http_server pool = true
uses http_server connection = true
uses a b = false

abbrev remove : Resource → List Resource → List Resource
remove r [] = []
remove r (x ∷ xs) = let rest = remove r xs in if same x r then xs else x ∷ rest

-- What is open after the acts; a resource is closed only while it is open and nothing open uses it.
unfoldable pub replay : List Act → List Resource → Option (List Resource)
replay [] held = some held
replay (opened r ∷ acts) held = replay acts (r ∷ held)
replay (closed r ∷ acts) held =
    let rest = replay acts (remove r held) in
    if exists (same r) held && not (exists (λ x. uses x r) held) then rest else none
replay (started j ∷ acts) held = replay acts held
replay (logged e ∷ acts) held = replay acts held

abbrev is_start : Act → Bool
is_start (started j) = true
is_start (opened r) = false
is_start (closed r) = false
is_start (logged e) = false

-- Nothing was started beside main.
abbrev pub IsIdle : List Act → Type 0
IsIdle t = exists is_start t ≡ false

-- The connection to the gRPC server is not open.
abbrev pub IsApart : Option (List Resource) → Type 0
IsApart none = ⊥
IsApart (some held) = exists (same connection) held ≡ false

-- Where main returns, all that was opened is closed, each thing after what uses it; where the process
-- exits before, that holds of the trace which is given; where main panics, that has the cause given.
abbrev pub IsClean : (List Act → Type 0) → Type 0 → Ended × List Act → Type 0
IsClean AtExit Panics (returned, t) = replay t [] ≡ some []
IsClean AtExit Panics (exited, t) = AtExit t
IsClean AtExit Panics (panicked, t) = Panics

-- What holds of a trace once the deferred call has run.
abbrev pub AfterDefer : Main → (Ended × List Act → Type 0) → Ended × List Act → Type 0
AfterDefer c Q x = Q (after_defer c x)

module _ (Q : Ended × List Act → Type 0) where
  pub or_fatal-ends :
      {A : Type 0} (r : Result A) (k : A → Main) (t : List Act)
      → Q (exited, t)
      → ((a : A) → Q (k a t))
      → Q (or_fatal r k t)
  or_fatal-ends (ok a) k t fails goes = goes a
  or_fatal-ends (err e) k t fails goes = fails

  -- The same with what the result was.
  pub or_fatal_known-ends :
      {A : Type 0} (r : Result A) (k : A → Main) (t : List Act)
      → Q (exited, t)
      → ((a : A) → r ≡ ok a → Q (k a t))
      → Q (or_fatal r k t)
  or_fatal_known-ends (ok a) k t fails goes = goes a refl
  or_fatal_known-ends (err e) k t fails goes = fails

  pub select-ends :
      (cause : Cause) (k : Main) (t : List Act)
      → Q (k t)
      → ((e : Error) → Q (k (t ++ logged e ∷ [])))
      → Q (select cause k t)
  unfolding select
  select-ends interrupted k t goes logs = goes
  select-ends (answered (ok u)) k t goes logs = goes
  select-ends (answered (err e)) k t goes logs = elim (Bool-cases (errors_is e canceled)) [
    | inl cut ↦ rw cut goes
    | inr failed ↦ rw failed (logs e)
  ]

  module _ {V F L : Type 0} (o : Packages V F L) where
    with_exporter-ends :
        (r : Result (Unit {0})) (k : Result Tracing → Main) (t : List Act)
        → ((e : Error) → Q (k (err e) t))
        → Q (k (ok (record { provider = true })) (t ++ opened tracer ∷ []))
        → Q (with_exporter o r k t)
    with_exporter-ends (ok u) k t fails traces = traces
    with_exporter-ends (err e) k t fails traces = fails e

    pub setup_otel-ends :
        (cfg : OtelConfig F) (k : Result Tracing → Main) (t : List Act)
        → ((e : Error) → Q (k (err e) t))
        → Q (k (ok (record { provider = false })) t)
        → Q (k (ok (record { provider = true })) (t ++ opened tracer ∷ []))
        → Q (setup_otel o cfg k t)
    unfolding setup_otel
    setup_otel-ends cfg k t fails plain traces = elim (Bool-cases cfg.enable) [
      | inl on ↦ rw on (with_exporter-ends (o.exporter cfg.endpoint) k t fails traces)
      | inr off ↦ rw off plain
    ]

    pub new_db-ends :
        (cfg : DbConfig) (k : Result Db → Main) (t : List Act)
        → ((e : Error) → Q (k (err e) t))
        → ((e : Error) → Q (k (err e) ((t ++ opened pool ∷ []) ++ closed pool ∷ [])))
        → ((db : Db) → Q (k (ok db) (t ++ opened pool ∷ [])))
        → Q (new_db o cfg k t)
    unfolding new_db
    new_db-ends cfg k t fails closes goes = parsed-ends (o.parse_config cfg.dsn)
      where
        pinged-ends : (r : Result (Unit {0})) → Q (pinged o cfg r k (t ++ opened pool ∷ []))
        pinged-ends (ok u) = goes (record { query_timeout = cfg.query_timeout })
        pinged-ends (err e) = closes _

        created-ends : (pcfg : PoolConfig) (r : Result (Unit {0})) → Q (created o cfg pcfg r k t)
        created-ends pcfg (ok u) = pinged-ends (o.ping pcfg)
        created-ends pcfg (err e) = fails _

        parsed-ends : (r : Result PoolConfig) → Q (parsed o cfg r k t)
        parsed-ends (ok pcfg) =
            created-ends (pool_config cfg pcfg) (o.new_with_config (pool_config cfg pcfg))
        parsed-ends (err e) = fails _
