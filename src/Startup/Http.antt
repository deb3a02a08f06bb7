-- ===== src/Startup/Http.antt =====
-- cmd/api-gateway/server_http.go and internal/obs/metrics_http.go: the connection to the gRPC server,
-- and the handlers of HTTP that are not of grpc-gateway.
use pingerus.Base.{ℕ, Bool, true, false, List, [], ◌∷◌, if◌then◌else◌}
use pingerus.Text.{Text, codes, text_eq}
use pingerus.World.Errors.{Error, message, Result, ok, err}
use pingerus.Gateway.Cors
use pingerus.Gateway.Cors.{Headers, cors}
use pingerus.Startup.{Main, connection, opened, closed, doing}

-- connectivity.State
pub data State : Type 0 where
  idle connecting ready transient_failure shut_down : State

-- A *grpc.ClientConn while it connects: the state that it has at first, and those that
-- WaitForStateChange reports, until the context of the call is done.
pub record Client : Type 0 where
  pub at_first : State
  pub changes : List State

abbrev deadline_exceeded : Error
deadline_exceeded = message "context deadline exceeded"

abbrev pub is_ready : State → Bool
is_ready ready = true
is_ready idle = false
is_ready connecting = false
is_ready transient_failure = false
is_ready shut_down = false

-- The loop of dialGRPCBlocking.
unfoldable pub wait_ready : State → List State → (Result (Unit {0}) → Main) → Main
wait_ready s [] k =
    if is_ready s then k (ok tt) else doing (closed connection) (k (err deadline_exceeded))
wait_ready s (s' ∷ more) k = if is_ready s then k (ok tt) else wait_ready s' more k

-- dialGRPCBlocking
unfoldable pub dial_grpc_blocking : Result Client → (Result (Unit {0}) → Main) → Main
unfolding wait_ready
dial_grpc_blocking (err e) k = k (err e)
dial_grpc_blocking (ok c) k = doing (opened connection) (wait_ready c.at_first c.changes k)

-- The rest of buildHTTPServer after a registration, which closes the connection where it fails.
abbrev pub registered : Result (Unit {0}) → (Result (Unit {0}) → Main) → Main → Main
registered (ok u) k rest = rest
registered (err e) k rest = doing (closed connection) (k (err e))

abbrev pub after_dial :
    Result (Unit {0}) → Result (Unit {0}) → (Result (Unit {0}) → Main) → Result (Unit {0}) → Main
after_dial checks auth k (err e) = k (err e)
after_dial checks auth k (ok u) = registered checks k (registered auth k (k (ok tt)))

-- buildHTTPServer, with the answers of the two registrations.
unfoldable pub build_http_server :
    Result Client → Result (Unit {0}) → Result (Unit {0}) → (Result (Unit {0}) → Main) → Main
unfolding dial_grpc_blocking
build_http_server client checks auth k = dial_grpc_blocking client (after_dial checks auth k)

-- An answer of the server of HTTP: its status and body, or what another package writes.
pub data Answer : Type 0 where
  plain : (status : ℕ) (body : Text) → Answer
  metrics grpc_gateway : Answer

-- The handler of /healthz in buildHTTPServer.
unfoldable pub healthz : Result (Unit {0}) → Answer
healthz (ok u) = plain 200 (codes "ok")
healthz (err e) = plain 503 (codes "unhealthy: db\n")

-- The handler of /healthz in createMetricsServer.
unfoldable pub metrics_healthz : Result (Unit {0}) → Answer
metrics_healthz (ok u) = plain 200 []
metrics_healthz (err e) = plain 503 (codes "unhealthy\n")

-- The handlers of root: a pattern that ends in a slash is for every path below it.
unfoldable pub route : Result (Unit {0}) → Text → Answer
unfolding healthz
route ping path =
    if text_eq path (codes "/metrics")
    then metrics
    else if text_eq path (codes "/healthz")
    then healthz ping
    else grpc_gateway

abbrev answer_of : Answer → Cors.Outcome → Answer × Headers
answer_of a (Cors.no_content hs) = (plain 204 [], hs)
answer_of a (Cors.passed hs) = (a, hs)

-- The handler of the server: CORS for one origin, and then root.
unfoldable pub handle_http : Result (Unit {0}) → Text → Text → Text → Answer × Headers
unfolding route cors
handle_http ping method origin path =
    answer_of (route ping path) (cors (codes "http://frontend:80" ∷ []) method origin)
