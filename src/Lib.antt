-- ===== src/Lib.antt =====
-- Verification of Pingerus, a service that watches web sites: users register checks through a
-- gRPC API, a scheduler sends the checks that are due to Kafka, a worker pings the sites and
-- records changes of status, an outbox carries these changes to Kafka, and a notifier mails
-- the users.
--
-- The parts, and where they are. World.antt is the outside of a process: the tables of the
-- database (World/Rows.antt, after internal/db/migrations and internal/domain), the topics of
-- Kafka, the clock, Go's errors (World/Errors.antt), and the operations of a service on them
-- (World/Effects.antt): a service is a function of the world that answers with a result or an
-- error and the next world. Postgres.antt has a module for each repository of
-- internal/repository/postgres: a statement of SQL is a function of the tables, run in the
-- transaction of the context or outside of one, and Postgres/Transactor.antt is WithTx.
-- Kafka.antt is the publishing side of internal/repository/kafka, with the carriers of obs.go
-- in Kafka/MapCarrierHeaders.antt and Kafka/MapCarrierFromKafka.antt, and Retry.antt is
-- internal/obs/retry. CheckService.antt is the usecase of internal/services/api-gateway/check
-- and CheckService/Api.antt its gRPC handlers. AuthService.antt is the usecase of
-- internal/services/api-gateway/auth, AuthService/Jwt.antt its access tokens and
-- AuthService/Api.antt its gRPC handlers. PingWorker.antt is internal/services/ping-worker,
-- Scheduler.antt is internal/services/scheduler (Scheduler/Runner.antt its runner),
-- OutboxRunner.antt is internal/outbox: a tick as a whole, and in OutboxRunner/Workers.antt
-- the workers, whose calls follow each other in any order. Gateway.antt puts both services
-- behind the interceptor of AuthService/Interceptor.antt, as cmd/api-gateway does, and
-- Gateway/Cors.antt is its CORS middleware. Consumer.antt is the loop of
-- internal/repository/kafka/consumer.go: PingWorker/Controller.antt and
-- Notifier/Controller.antt hand it their handlers. Notifier.antt is
-- internal/services/email-notifier, and Notifier/Smtp.antt its mailer. Topics.antt is
-- internal/repository/kafka/admin.go and KafkaInit.antt is cmd/kafka-init. Config.antt is
-- internal/config, with a module for each program, and Startup.antt the main functions of cmd
-- with what they take of internal/obs and of internal/repository/postgres/db.go
-- (Postgres/Db.antt): a main function is what it opens, starts and closes, and
-- Startup/Http.antt is cmd/api-gateway/server_http.go. Pipeline.antt is cmd/ping-worker as a
-- whole: the handler of checks and the workers of the outbox on one world. Text.antt holds
-- what the code takes of the packages strings, strconv and time. Scenarios.antt runs the
-- theorems at a small deployment.
--
-- How the state corresponds. A time is a number of nanoseconds since Go's zero time, and
-- services and database read one clock. A text is a list of code points. Identifiers of 64
-- bits are integers; the conversions to int32 wrap around. The tables are lists with the
-- newest row first, beside the next values of their sequences. Each call that leaves the
-- process, and each reading of the clock, takes one event from a script: the time that passes
-- and, perhaps, an error of the driver; a call that fails has written nothing, and a query's
-- timeout is such a failure. A wait between two attempts may be cut by a cancelled context.
-- With an empty script no call fails. A transaction works on a view of the tables taken when
-- it began; commit puts the view in the place of the tables and rollback drops it with its
-- sequences. The statements of other processes in the meantime are not modelled, but between
-- two calls of the outbox's workers other programs may put messages into the outbox.
--
-- Loops. The lists of messages and checks are processed by structural recursion; the loop of
-- Do runs over the attempts that remain. The loops of Consume, EnsureTopic and kafka-init end
-- only by a deadline or a cancelled context, so they run on fuel, and give `none` where it is
-- used up: the fuel that is enough follows from the shortest wait of 200 ms, and
-- Consumer/Stopping.antt, Topics/Waiting.antt and KafkaInit/Ready.antt count it.
--
-- What stands for code outside of the repository: the validators of protoc-gen-validate,
-- json.Marshal and json.Unmarshal, bcrypt, the hashes, base64, the random bytes, the answers
-- of the network, and the random factor of the backoff are parameters. So are the package
-- viper, which Config/Layers.antt names the laws of (IsLayered), the answers of the packages
-- that main calls (Packages, Network; whether kafka-go accepts the configuration of a reader
-- is one of them), the decoding of protobuf, the answers of the SMTP server (smtp.SendMail is
-- the transfer of the mail, which fails whole, and QUIT, which may fail after it), the reader
-- of kafka-go (Reader) and its connections (Network). AuthService/Access.antt names what is
-- relied on of base64 and JSON (ReadsBack), and Consumer/Partitions.antt what is relied on of
-- a reader in a consumer group (Partition): it goes through its partition in order, and a
-- commit that fails may have been done or not. A dialogue with the SMTP server whose end
-- fails has delivered no mail. That the clock does not turn back over a call of a parameter
-- is a hypothesis. A byte of a token is a code point of a text. Rows that the database
-- returns in no order (RETURNING) come in the order of the candidates.
--
-- Not modelled: logs, metrics but for the counters of the scheduler and of the outbox's
-- workers, traces (of their headers, the carriers between the context and a message are
-- modelled, the propagator is not), the rendering of JSON columns, the migrator, the
-- translation of HTTP to gRPC, the rebalancing of Kafka's readers, what still runs beside
-- main while it ends, panics in handlers, the frontend.
pub mod Base
pub mod Startup
pub mod Text
pub mod World
pub mod Postgres
pub mod Kafka
pub mod Retry
pub mod CheckService
pub mod PingWorker
pub mod AuthService
pub mod Scheduler
pub mod Config
pub mod Gateway
pub mod Topics
pub mod KafkaInit
pub mod Notifier
pub mod Consumer
pub mod Scenarios
pub mod OutboxRunner
pub mod Pipeline
