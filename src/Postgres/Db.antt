-- ===== src/Postgres/Db.antt =====
-- internal/repository/postgres/db.go: the settings of the pool, and the timeout of a query. The pool of
-- pgxpool is not modelled.
use pingerus.Base.{Option, none, some, if◌then◌else◌}
use pingerus.Base.Int.{ℤ, not_positive}
use pingerus.Config.{DbConfig}

-- The fields of pgxpool.Config that NewDB may set.
pub record PoolConfig : Type 0 where
  pub max_conns : ℤ
  pub min_conns : ℤ
  pub max_conn_lifetime : ℤ
  pub max_conn_idle_time : ℤ
  pub health_check_period : ℤ

-- A setting that is positive goes before the one that was parsed from the DSN.
abbrev pub if_positive : ℤ → ℤ → ℤ
if_positive setting parsed = if not_positive setting then parsed else setting

unfoldable pub pool_config : DbConfig → PoolConfig → PoolConfig
pool_config cfg pcfg = record {
  max_conns = if_positive cfg.max_conns pcfg.max_conns;
  min_conns = if_positive cfg.min_conns pcfg.min_conns;
  max_conn_lifetime = if_positive cfg.max_conn_lifetime pcfg.max_conn_lifetime;
  max_conn_idle_time = if_positive cfg.max_conn_idle_time pcfg.max_conn_idle_time;
  health_check_period = if_positive cfg.health_check_period pcfg.health_check_period;
}

-- DB.withTimeout: the timeout that a query gets, or `none` where its context stays as it is.
unfoldable pub with_timeout : ℤ → Option ℤ
with_timeout query_timeout = if not_positive query_timeout then none else some query_timeout
