-- ===== src/Startup/Setup.antt =====
-- internal/obs: NewLogger, SetupOTel and Shutdown; internal/repository/postgres/db.go: NewDB;
-- internal/repository/kafka/bootstrap.go. The packages zap, otel, pgxpool and kafka-go answer as the outside of the process says.
use pingerus.Base.{Bool, true, false, ◌&&◌, Option, none, some, List, [], ◌∷◌, if◌then◌else◌}
use pingerus.Base.Int.{ℤ}
use pingerus.Text.{Text}
use pingerus.World.Errors.{wrap, Result, ok, err}
use pingerus.Config.{Viper, LogConfig, OtelConfig, DbConfig}
use pingerus.Postgres.Db.{PoolConfig, pool_config}
use pingerus.Consumer.Start.{ConsumerConfig, ReaderConfig, new_consumer}
use pingerus.Startup.{tracer, pool, consumer, opened, closed, Main, return, panic, doing, holding}

-- The answers of the packages: L is zapcore.Level.
pub record Packages (V F L : Type 0) : Type 0 where
  pub viper : Viper V F
  -- level.Set(text), zapcore.InfoLevel and Config.Build
  pub set_level : Text → Result L
  pub info_level : L
  pub build : Bool → L → LogConfig → Result (Unit {0})
  -- otlptracegrpc.New with the endpoint
  pub exporter : Text → Result (Unit {0})
  -- pgxpool.ParseConfig, pgxpool.NewWithConfig and Pool.Ping
  pub parse_config : Text → Result PoolConfig
  pub new_with_config : PoolConfig → Result (Unit {0})
  pub ping : PoolConfig → Result (Unit {0})
  -- kafka.ReaderConfig.Validate finds no fault
  pub is_valid : ReaderConfig → Bool

-- *OTel: whether it has a TracerProvider.
pub record Tracing : Type 0 where
  pub provider : Bool

-- Shutdown on a *OTel; a nil pointer is `none`, and the method reads a field of it.
unfoldable pub shutdown : Option Tracing → Main
shutdown none = panic
shutdown (some o) = if o.provider then doing (closed tracer) return else return

abbrev level_or {ℓ} : {L : Type ℓ} → L → Result L → L
level_or info (ok l) = l
level_or info (err e) = info

-- *DB
pub record Db : Type 0 where
  pub query_timeout : ℤ

module _ {V F L : Type 0} (o : Packages V F L) where
  -- NewLogger
  unfoldable pub new_logger : LogConfig → Result (Unit {0})
  new_logger c = o.build c.pretty (level_or o.info_level (o.set_level c.level)) c

  abbrev pub with_exporter : Result (Unit {0}) → (Result Tracing → Main) → Main
  with_exporter (ok u) k = doing (opened tracer) (k (ok (record { provider = true })))
  with_exporter (err e) k = k (err e)

  -- SetupOTel
  unfoldable pub setup_otel : OtelConfig F → (Result Tracing → Main) → Main
  setup_otel cfg k =
      if cfg.enable
      then with_exporter (o.exporter cfg.endpoint) k
      else k (ok (record { provider = false }))

  abbrev pub pinged : DbConfig → Result (Unit {0}) → (Result Db → Main) → Main
  pinged cfg (ok u) k = k (ok (record { query_timeout = cfg.query_timeout }))
  pinged cfg (err e) k = doing (closed pool) (k (err (wrap "ping db" e)))

  abbrev pub created : DbConfig → PoolConfig → Result (Unit {0}) → (Result Db → Main) → Main
  created cfg pcfg (ok u) k = doing (opened pool) (pinged cfg (o.ping pcfg) k)
  created cfg pcfg (err e) k = k (err (wrap "create pool" e))

  abbrev pub parsed : DbConfig → Result PoolConfig → (Result Db → Main) → Main
  parsed cfg (ok pcfg) k =
      let pcfg' = pool_config cfg pcfg in created cfg pcfg' (o.new_with_config pcfg') k
  parsed cfg (err e) k = k (err (wrap "parse pool config" e))

  -- NewDB
  unfoldable pub new_db : DbConfig → (Result Db → Main) → Main
  unfolding pool_config
  new_db cfg k = parsed cfg (o.parse_config cfg.dsn) k

  abbrev has_broker : List Text → Bool
  has_broker [] = false
  has_broker (b ∷ bs) = true

  -- EnsureTopic indexes the brokers at 0, and kafka.NewReader panics where the configuration of the
  -- reader is at fault.
  unfoldable pub starts : ConsumerConfig → Bool
  unfolding new_consumer
  starts cfg = has_broker cfg.brokers && o.is_valid (new_consumer cfg)

  -- BootstrapConsumer, whose EnsureTopic is asked for an error that nobody reads, and the deferred Close.
  unfoldable pub bootstrap_consumer : ConsumerConfig → Main → Main
  unfolding starts
  bootstrap_consumer cfg k = if starts cfg then holding consumer k else panic
