-- ===== src/Startup/ApiGateway.antt =====
-- cmd/api-gateway/main.go
use pingerus.Base.{some}
use pingerus.Text.{Text, codes}
use pingerus.World.Errors.{Result, ok, err}
use pingerus.Config.{as_otel_config}
use pingerus.Config.ApiGateway
use pingerus.Startup.{
  Main, signals, logger, pool, grpc_server, http_server, connection, opened, closed, started,
  logged, serve_grpc, listen_http, return, doing, or_fatal, deferring, holding,
}
use pingerus.Startup.Setup.{Packages, Tracing, Db, shutdown, new_logger, setup_otel, new_db}
use pingerus.Startup.Http.{Client, build_http_server}

-- net.Listen with the address, grpc.NewClient, and the registrations of grpc-gateway.
pub record Network : Type 0 where
  pub listen : Text → Result (Unit {0})
  pub client : Text → Result Client
  pub register_check : Result (Unit {0})
  pub register_auth : Result (Unit {0})

-- The select of main: a signal, or the answer of a server; http.ErrServerClosed is no error.
pub data Stop : Type 0 where
  signalled server_closed : Stop
  grpc_answered http_failed : Result (Unit {0}) → Stop

abbrev pub log_failure : Result (Unit {0}) → Main → Main
log_failure (ok u) k = k
log_failure (err e) k = doing (logged e) k

unfoldable pub select_server : Stop → Main → Main
select_server signalled k = k
select_server server_closed k = k
select_server (grpc_answered r) k = log_failure r k
select_server (http_failed r) k = log_failure r k

module _ {V F L : Type 0} (o : Packages V F L) (net : Network) (stop : Stop) where
  -- What follows when the server of HTTP is built.
  abbrev pub serve : Main
  serve = deferring (doing (closed connection) return) (
      doing (opened http_server) (
        doing (started listen_http)
          (select_server stop (doing (closed http_server) (doing (closed grpc_server) return)))))

  abbrev pub with_server : Result (Unit {0}) → Main
  with_server r = or_fatal r (λ _. serve)

  abbrev pub with_listener : ApiGateway.Config F → Main
  with_listener cfg = doing (opened grpc_server) (
      doing (started serve_grpc) (
        build_http_server (net.client cfg.server.grpc_addr) net.register_check net.register_auth
          with_server))

  abbrev pub with_db : ApiGateway.Config F → Result Db → Main
  with_db cfg r = or_fatal r (λ db.
      deferring (doing (closed pool) return)
        (or_fatal (net.listen cfg.server.grpc_addr) (λ _. with_listener cfg)))

  abbrev pub with_closer : ApiGateway.Config F → Tracing → Main
  with_closer cfg closer = deferring (shutdown (some closer)) (new_db o cfg.db (with_db cfg))

  abbrev pub with_otel : ApiGateway.Config F → Result Tracing → Main
  with_otel cfg r = or_fatal r (with_closer cfg)

  abbrev pub with_logger : ApiGateway.Config F → Main
  with_logger cfg = holding logger (setup_otel o (as_otel_config cfg.otel) (with_otel cfg))

  abbrev pub with_config : ApiGateway.Config F → Main
  with_config cfg =
      or_fatal (new_logger o (ApiGateway.logger_config cfg.log)) (λ _. with_logger cfg)

  -- main
  unfoldable pub main : Main
  unfolding new_logger setup_otel shutdown new_db build_http_server select_server ApiGateway.load
  main =
      holding signals
        (or_fatal (ApiGateway.load o.viper (codes "../config/api-gateway.yaml")) with_config)
