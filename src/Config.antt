-- ===== src/Config.antt =====
-- internal/config: what the loaders of the four programs share. The package viper is an interface; a
-- struct is read field by field, each under the key of its tag, or of its name in lower case where it
-- has no tag, and of several fields that cannot be read the first gives the error.
pub mod PingWorker
pub mod EmailNotifier
pub mod Scheduler
pub mod ApiGateway
pub mod Answers
pub mod Layers
pub mod Unread
use pingerus.Base.{ℕ, Bool, true, false, Option, none, some, List, [], ◌∷◌}
use pingerus.Base.Int.{ℤ, pos}
use pingerus.Text.{Text, codes, is_empty}
use pingerus.World.Errors.{Error, Result, ok, err}

-- The values that SetDefault gets, and those of a file of YAML or of the environment.
pub data Value : Type 0 where
  text : Text → Value
  texts : List Text → Value
  number : ℤ → Value
  flag : Bool → Value
  real : Text → Value

-- *viper.Viper with its state V; `get` is what Unmarshal finds under a key, and what follows is how it
-- reads a value into a field of Go's type; F is float64.
pub record Viper (V F : Type 0) : Type 0 where
  pub new : V
  pub set_config_type : Text → V → V
  pub set_config_file : Text → V → V
  pub read_in_config : V → Result V
  pub set_default : Text → Value → V → V
  pub set_env_key_replacer : Text → Text → V → V
  pub automatic_env : V → V
  pub get : V → Text → Option Value
  pub text_of : Value → Result Text
  pub texts_of : Value → Result (List Text)
  pub bool_of : Value → Result Bool
  pub int_of : Value → Result ℤ
  pub int32_of : Value → Result ℤ
  pub duration_of : Value → Result ℤ
  pub float_of : Value → Result F
  pub zero_float : F

-- What lies under a key.
abbrev pub Lookup : Type 0
Lookup = Text → Option Value

infixl 10 ◌>>=◌
abbrev pub ◌>>=◌ {ℓ κ} : {A : Type ℓ} {B : Type κ} → Result A → (A → Result B) → Result B
ok a >>= f = f a
err e >>= f = err e

-- The zero value where there is no value, or the value as it is read.
abbrev pub read_or {ℓ} : {A : Type ℓ} → A → (Value → Result A) → Option Value → Result A
read_or zero read none = ok zero
read_or zero read (some x) = read x

-- pg.Config
pub record DbConfig : Type 0 where
  pub dsn : Text
  pub max_conns : ℤ
  pub min_conns : ℤ
  pub max_conn_lifetime : ℤ
  pub max_conn_idle_time : ℤ
  pub health_check_period : ℤ
  pub query_timeout : ℤ

-- obs.OTELConfig
pub record OtelConfig (F : Type 0) : Type 0 where
  pub enable : Bool
  pub endpoint : Text
  pub service_name : Text
  pub sample_ratio : F

-- obs.LogConfig
pub record LogConfig : Type 0 where
  pub level : Text
  pub pretty : Bool
  pub app : Text
  pub env : Text
  pub ver : Text

-- The struct OTEL of each program's config.go.
pub record Otel (F : Type 0) : Type 0 where
  pub enable : Bool
  pub otlp_endpoint : Text
  pub service_name : Text
  pub sample_ratio : F

-- OTEL.AsOTELConfig
unfoldable pub as_otel_config : {F : Type 0} → Otel F → OtelConfig F
as_otel_config oc = record {
  enable = oc.enable;
  endpoint = oc.otlp_endpoint;
  service_name = oc.service_name;
  sample_ratio = oc.sample_ratio;
}

-- The struct Log of each program's config.go.
pub record Log : Type 0 where
  pub level : Text
  pub pretty : Bool

-- Log.AsLoggerConfig, with the name of the program.
unfoldable pub as_logger_config : Text → Log → LogConfig
as_logger_config app lc = record {
  level = lc.level;
  pretty = lc.pretty;
  app = app;
  env = [];
  ver = [];
}

-- The struct Server of the programs that only listen for the metrics.
pub record Server : Type 0 where
  pub metrics_addr : Text

module _ {V F : Type 0} (v : Viper V F) where
  abbrev pub text_at : Lookup → Text → Result Text
  text_at look key = read_or [] v.text_of (look key)

  abbrev pub texts_at : Lookup → Text → Result (List Text)
  texts_at look key = read_or [] v.texts_of (look key)

  abbrev pub bool_at : Lookup → Text → Result Bool
  bool_at look key = read_or false v.bool_of (look key)

  abbrev pub int_at : Lookup → Text → Result ℤ
  int_at look key = read_or (pos 0) v.int_of (look key)

  abbrev pub int32_at : Lookup → Text → Result ℤ
  int32_at look key = read_or (pos 0) v.int32_of (look key)

  abbrev pub duration_at : Lookup → Text → Result ℤ
  duration_at look key = read_or (pos 0) v.duration_of (look key)

  abbrev pub float_at : Lookup → Text → Result F
  float_at look key = read_or v.zero_float v.float_of (look key)

  -- The field DB; its struct has no tags.
  unfoldable pub unmarshal_db : Lookup → Result DbConfig
  unmarshal_db look = do
    dsn ← text_at look (codes "db.dsn")
    max_conns ← int32_at look (codes "db.maxconns")
    min_conns ← int32_at look (codes "db.minconns")
    max_conn_lifetime ← duration_at look (codes "db.maxconnlifetime")
    max_conn_idle_time ← duration_at look (codes "db.maxconnidletime")
    health_check_period ← duration_at look (codes "db.healthcheckperiod")
    query_timeout ← duration_at look (codes "db.querytimeout")
    ok (record {
      dsn = dsn;
      max_conns = max_conns;
      min_conns = min_conns;
      max_conn_lifetime = max_conn_lifetime;
      max_conn_idle_time = max_conn_idle_time;
      health_check_period = health_check_period;
      query_timeout = query_timeout;
    })

  unfoldable pub unmarshal_otel : Lookup → Result (Otel F)
  unmarshal_otel look = do
    enable ← bool_at look (codes "otel.enable")
    otlp_endpoint ← text_at look (codes "otel.otlp_endpoint")
    service_name ← text_at look (codes "otel.service_name")
    sample_ratio ← float_at look (codes "otel.sample_ratio")
    ok (record {
      enable = enable;
      otlp_endpoint = otlp_endpoint;
      service_name = service_name;
      sample_ratio = sample_ratio;
    })

  unfoldable pub unmarshal_log : Lookup → Result Log
  unmarshal_log look = do
    level ← text_at look (codes "log.level")
    pretty ← bool_at look (codes "log.pretty")
    ok (record { level = level; pretty = pretty })

  unfoldable pub unmarshal_server : Lookup → Result Server
  unmarshal_server look = do
    metrics_addr ← text_at look (codes "server.metrics_addr")
    ok (record { metrics_addr = metrics_addr })

  unfoldable pub set_defaults : List (Text × Value) → V → V
  set_defaults [] s = s
  set_defaults ((key, x) ∷ more) s = set_defaults more (v.set_default key x s)

  -- _ = v.ReadInConfig()
  abbrev pub read_dropped : V → Result V → V
  read_dropped s (ok s') = s'
  read_dropped s (err e) = s

  abbrev pub with_file : Text → V → V
  with_file [] s = s
  with_file (c ∷ path) s =
      let t = v.set_config_file (c ∷ path) s in read_dropped t (v.read_in_config t)

  -- Load up to Unmarshal, with the program's calls of SetDefault.
  unfoldable pub prepared : List (Text × Value) → Text → V
  unfolding set_defaults
  prepared defaults path = v.automatic_env (
      v.set_env_key_replacer (codes ".") (codes "_")
        (set_defaults defaults (with_file path (v.set_config_type (codes "yaml") v.new))))
