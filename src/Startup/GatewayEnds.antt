-- ===== src/Startup/GatewayEnds.antt =====
-- cmd/api-gateway/main.go: how it ends.
use pingerus.Base.{Bool, inl, inr, Bool-cases, refl, true, false, some, List, [], ◌∷◌, ◌++◌}
use pingerus.Text.{codes}
use pingerus.World.Errors.{Error, Result, ok, err}
use pingerus.Config.{as_otel_config}
use pingerus.Config.ApiGateway as GatewayConfig
use pingerus.Startup.{
  serve_grpc, Act, Ended, Main, signals, logger, tracer, pool, grpc_server, connection, opened,
  closed, started, return, doing,
}
use pingerus.Startup.Setup.{Packages, Db, shutdown, new_logger}
use pingerus.Startup.Clean.{
  AfterDefer, replay, IsApart, IsClean, or_fatal-ends, setup_otel-ends, new_db-ends,
}
use pingerus.Startup.ApiGateway
use pingerus.Startup.ApiGateway.{
  Network, Stop, signalled, server_closed, grpc_answered, http_failed, select_server,
}
use pingerus.Startup.Http.{State, Client, is_ready, wait_ready, after_dial, build_http_server}

-- The trace before NewDB, with a provider of traces or without.
abbrev trace_of : Bool → List Act
trace_of true = opened signals ∷ opened logger ∷ opened tracer ∷ []
trace_of false = opened signals ∷ opened logger ∷ []

-- What holds of a trace once the deferred `stop` has run: where the process exits, the connection to
-- the gRPC server is not open.
abbrev Ends : Ended × List Act → Type 0
Ends = AfterDefer (doing (closed signals) return) (IsClean (λ t. IsApart (replay t [])) ⊥)

module _ (Q : Ended × List Act → Type 0) (k : Result (Unit {0}) → Main) (t : List Act) where
  wait_ready-ends :
      (s : State) (more : List State)
      → Q (k (ok tt) t)
      → ((e : Error) → Q (k (err e) (t ++ closed connection ∷ [])))
      → Q (wait_ready s more k t)
  unfolding wait_ready
  wait_ready-ends s [] goes late = elim (Bool-cases (is_ready s)) [
    | inl there ↦ rw there goes
    | inr other ↦ rw other (late _)
  ]
  wait_ready-ends s (s' ∷ more) goes late = elim (Bool-cases (is_ready s)) [
    | inl there ↦ rw there goes
    | inr other ↦ rw other (wait_ready-ends s' more goes late)
  ]

module _ (Q : Ended × List Act → Type 0) (k : Result (Unit {0}) → Main) (t : List Act) where
  -- The connection is open where the server is built, and closed again where it is not.
  build_http_server-ends :
      (client : Result Client) (checks auth : Result (Unit {0}))
      → ((e : Error) → Q (k (err e) t))
      → ((e : Error) → Q (k (err e) ((t ++ opened connection ∷ []) ++ closed connection ∷ [])))
      → Q (k (ok tt) (t ++ opened connection ∷ []))
      → Q (build_http_server client checks auth k t)
  unfolding build_http_server
  build_http_server-ends (err e) checks auth fails closes goes = fails e
  build_http_server-ends (ok c) checks auth fails closes goes =
      wait_ready-ends Q (after_dial checks auth k) (t ++ opened connection ∷ []) c.at_first
        c.changes (registered_ends checks auth) closes
    where
      registered_ends :
          (checks auth : Result (Unit {0}))
          → Q (after_dial checks auth k (ok tt) (t ++ opened connection ∷ []))
      registered_ends (ok u) (ok v) = goes
      registered_ends (ok u) (err e) = closes e
      registered_ends (err e) auth = closes e

module _ {V F L : Type 0} (o : Packages V F L) (net : Network) where
  -- What is left after NewDB.
  abbrev Closing : Bool → Ended × List Act → Type 0
  Closing b = AfterDefer (doing (closed pool) return) (
      AfterDefer (shutdown (some (record { provider = b })))
        (AfterDefer (doing (closed logger) return) Ends))

  abbrev listening : Bool → List Act
  listening b = trace_of b ++ opened pool ∷ opened grpc_server ∷ started serve_grpc ∷ []

  served :
      (stop : Stop) (b : Bool)
      → Closing b
          (ApiGateway.with_server o net stop (ok tt) (listening b ++ opened connection ∷ []))
  unfolding select_server shutdown replay
  served signalled true = refl
  served signalled false = refl
  served server_closed true = refl
  served server_closed false = refl
  served (grpc_answered (ok u)) true = refl
  served (grpc_answered (ok u)) false = refl
  served (grpc_answered (err e)) true = refl
  served (grpc_answered (err e)) false = refl
  served (http_failed (ok u)) true = refl
  served (http_failed (ok u)) false = refl
  served (http_failed (err e)) true = refl
  served (http_failed (err e)) false = refl

  with_listener-ends :
      (stop : Stop) (cfg : GatewayConfig.Config F) (b : Bool)
      → Closing b (ApiGateway.with_listener o net stop cfg (trace_of b ++ opened pool ∷ []))
  unfolding replay
  with_listener-ends stop cfg true =
      build_http_server-ends (Closing true) (ApiGateway.with_server o net stop) (listening true)
        (net.client cfg.server.grpc_addr) net.register_check net.register_auth (λ e. refl)
        (λ e. refl) (served stop true)
  with_listener-ends stop cfg false =
      build_http_server-ends (Closing false) (ApiGateway.with_server o net stop) (listening false)
        (net.client cfg.server.grpc_addr) net.register_check net.register_auth (λ e. refl)
        (λ e. refl) (served stop false)

  -- After SetupOTel, with the deferred calls of before.
  abbrev Held : Ended × List Act → Type 0
  Held = AfterDefer (doing (closed logger) return) Ends

  with_db-ends :
      (stop : Stop) (cfg : GatewayConfig.Config F) (b : Bool) (db : Db)
      → AfterDefer
          (shutdown (some (record { provider = b })))
          Held
          (ApiGateway.with_db o net stop cfg (ok db) (trace_of b ++ opened pool ∷ []))
  unfolding replay
  with_db-ends stop cfg true db =
      or_fatal-ends (Closing true) (net.listen cfg.server.grpc_addr)
        (λ _. ApiGateway.with_listener o net stop cfg) (trace_of true ++ opened pool ∷ []) refl
        (λ _. with_listener-ends stop cfg true)
  with_db-ends stop cfg false db =
      or_fatal-ends (Closing false) (net.listen cfg.server.grpc_addr)
        (λ _. ApiGateway.with_listener o net stop cfg) (trace_of false ++ opened pool ∷ []) refl
        (λ _. with_listener-ends stop cfg false)

  with_closer-ends :
      (stop : Stop) (cfg : GatewayConfig.Config F) (b : Bool)
      → Held (ApiGateway.with_closer o net stop cfg (record { provider = b }) (trace_of b))
  unfolding replay
  with_closer-ends stop cfg true =
      new_db-ends (AfterDefer (shutdown (some (record { provider = true }))) Held) o cfg.db
        (ApiGateway.with_db o net stop cfg) (trace_of true) (λ e. refl) (λ e. refl)
        (with_db-ends stop cfg true)
  with_closer-ends stop cfg false =
      new_db-ends (AfterDefer (shutdown (some (record { provider = false }))) Held) o cfg.db
        (ApiGateway.with_db o net stop cfg) (trace_of false) (λ e. refl) (λ e. refl)
        (with_db-ends stop cfg false)

  pub api_gateway-IsClean :
      (stop : Stop) → IsClean (λ t. IsApart (replay t [])) ⊥ (ApiGateway.main o net stop [])
  unfolding ApiGateway.main replay
  api_gateway-IsClean stop =
      or_fatal-ends Ends (GatewayConfig.load o.viper (codes "../config/api-gateway.yaml"))
        (ApiGateway.with_config o net stop) (opened signals ∷ []) refl
        (λ cfg.
          or_fatal-ends Ends (new_logger o (GatewayConfig.logger_config cfg.log))
            (λ _. ApiGateway.with_logger o net stop cfg) (opened signals ∷ []) refl
            (λ _.
              setup_otel-ends Held o (as_otel_config cfg.otel) (ApiGateway.with_otel o net stop cfg)
                (trace_of false) (λ e. refl) (with_closer-ends stop cfg false)
                (with_closer-ends stop cfg true)))
