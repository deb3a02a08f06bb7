-- ===== src/Startup.antt =====
-- cmd: the programs' main functions, as what they open, start and close, and how they end. A function
-- here is the rest of main from some point on: it goes on from the trace so far. Log lines are left out,
-- but for those of errors.
pub mod Setup
pub mod PingWorker
pub mod EmailNotifier
pub mod Scheduler
pub mod Http
pub mod ApiGateway
pub mod Clean
pub mod Ends
pub mod GatewayEnds
pub mod NotifierEnds
pub mod AllEnd
use pingerus.Base.{
  ℕ, Bool, true, false, not, ◌&&◌, Option, none, some, List, [], ◌∷◌, ◌++◌, exists, if◌then◌else◌,
}
use pingerus.Text.{Text}
use pingerus.World.Errors.{Error, canceled, errors_is, Result, ok, err}

pub data Resource : Type 0 where
  signals logger tracer pool metrics_server consumer producer grpc_server connection : Resource
  http_server : Resource

-- What runs beside main: the workers of the outbox, with their number, the size of a batch, the time
-- between ticks and the time of a message in nanoseconds, and what the others serve or read.
pub data Job : Type 0 where
  outbox_workers : (workers batch_size wait_time in_progress_ttl : ℕ) → Job
  controller runner serve_grpc listen_http : Job

pub data Act : Type 0 where
  opened closed : Resource → Act
  started : Job → Act
  logged : Error → Act

-- main returns; or log.Fatal ends the process, and no deferred call runs; or a panic does, after the
-- deferred calls.
pub data Ended : Type 0 where
  returned exited panicked : Ended

abbrev pub Main : Type 0
Main = List Act → Ended × List Act

abbrev pub return : Main
return t = (returned, t)

abbrev pub panic : Main
panic t = (panicked, t)

abbrev pub doing : Act → Main → Main
doing a k t = k (t ++ a ∷ [])

-- `if err != nil { log.Fatal(err) }`
abbrev pub or_fatal {ℓ} : {A : Type ℓ} → Result A → (A → Main) → Main
or_fatal (ok a) k t = k a t
or_fatal (err e) k t = (exited, t)

abbrev pub after_defer : Main → Ended × List Act → Ended × List Act
after_defer c (returned, t) = c t
after_defer c (exited, t) = (exited, t)
after_defer c (panicked, t) = (panicked, (c t).1)

-- `defer c()`, and what follows it.
abbrev pub deferring : Main → Main → Main
deferring c k t = after_defer c (k t)

-- What opens and what defers the closing of it.
abbrev pub holding : Resource → Main → Main
holding r k = doing (opened r) (deferring (doing (closed r) return) k)

-- The select at the end of main: a signal came, or what runs beside main answered.
pub data Cause : Type 0 where
  interrupted : Cause
  answered : Result (Unit {0}) → Cause

-- `if err != nil && !errors.Is(err, context.Canceled)`, the error is logged.
unfoldable pub select : Cause → Main → Main
select interrupted k = k
select (answered (ok u)) k = k
select (answered (err e)) k = if errors_is e canceled then k else doing (logged e) k
