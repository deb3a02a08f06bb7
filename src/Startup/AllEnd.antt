-- ===== src/Startup/AllEnd.antt =====
-- How the programs end that do not go on without a tracer.
use pingerus.Base.{[]}
use pingerus.Startup.{Cause}
use pingerus.Startup.Setup.{Packages}
use pingerus.Startup.ApiGateway.{Network, Stop}
use pingerus.Startup.Clean.{replay, IsIdle, IsApart, IsClean}
use pingerus.Startup.Ends.{IsMisread, ping_worker-IsClean, scheduler-IsClean}
use pingerus.Startup.GatewayEnds.{api_gateway-IsClean}
use pingerus.Startup.PingWorker
use pingerus.Startup.Scheduler
use pingerus.Startup.ApiGateway

-- Whatever the packages, the network and the servers answer: the main functions of the scheduler and of
-- the API gateway do not panic, and that of the ping worker only where the configuration that it read
-- has no broker or makes a reader that kafka-go refuses; where main returns, all that it opened is
-- closed, each thing after those opened that use it, while what was started beside main may still run;
-- where the process exits before, the ping worker and the scheduler have started nothing beside main, and the gateway has no
-- connection open to its gRPC server.
pub mains-IsClean :
    {V F L : Type 0} (o : Packages V F L) (net : Network) (cause : Cause) (stop : Stop)
    → IsClean IsIdle (IsMisread o) (PingWorker.main o cause [])
      × IsClean IsIdle ⊥ (Scheduler.main o cause [])
      × IsClean (λ t. IsApart (replay t [])) ⊥ (ApiGateway.main o net stop [])
mains-IsClean o net cause stop =
    (ping_worker-IsClean o cause, scheduler-IsClean o cause, api_gateway-IsClean o net stop)
