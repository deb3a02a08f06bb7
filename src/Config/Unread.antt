-- ===== src/Config/Unread.antt =====
-- The settings of the database that no key of the configuration reaches: the struct of internal/
-- repository/postgres/db.go has no tags, so that its fields go by their names, without underscores.
use pingerus.Base.{refl, subst, Bool-cases, ◌≡◌, refl, subst, inl, inr, none, List, [], ◌∷◌}
use pingerus.Base.Int.{pos}
use pingerus.Text.{Text, codes, text_eq, is_empty}
use pingerus.World.Errors.{ok}
use pingerus.Config.{
  Value, Viper, Lookup, DbConfig, prepared, text_at, unmarshal_db, unmarshal_otel, unmarshal_log,
  unmarshal_server,
}
use pingerus.Config.Answers.{Answers, after, after_both}
use pingerus.Config.Layers.{IsLayered, default_in, layered, load-layered}
use pingerus.Config.PingWorker
use pingerus.Config.EmailNotifier
use pingerus.Config.Scheduler
use pingerus.Config.ApiGateway
use pingerus.Postgres.Db.{PoolConfig, pool_config, with_timeout}

-- The keys under which the fields are looked for.
abbrev pub field_keys : List Text
field_keys =
    codes "db.maxconns"
    ∷ codes "db.minconns"
    ∷ codes "db.maxconnlifetime"
    ∷ codes "db.maxconnidletime"
    ∷ codes "db.healthcheckperiod"
    ∷ codes "db.querytimeout"
    ∷ []

-- Nothing lies under these keys.
abbrev pub AreFree : Lookup → List Text → Type 0
AreFree look [] = Unit
AreFree look (k ∷ ks) = (look k ≡ none) × AreFree look ks

-- The pool goes by the DSN alone, and queries get no timeout.
abbrev pub IsBare : DbConfig → Type 0
IsBare cfg =
    ((pcfg : PoolConfig) → pool_config cfg pcfg ≡ pcfg) × (with_timeout cfg.query_timeout ≡ none)

-- None of these keys has a default.
abbrev AreUnset : List (Text × Value) → Type 0
AreUnset defaults = AreFree (λ key. default_in defaults key none) field_keys

ping_worker-AreUnset : AreUnset PingWorker.defaults
unfolding default_in text_eq
ping_worker-AreUnset = (refl, (refl, (refl, (refl, (refl, (refl, tt))))))

email_notifier-AreUnset : AreUnset EmailNotifier.defaults
unfolding default_in text_eq
email_notifier-AreUnset = (refl, (refl, (refl, (refl, (refl, (refl, tt))))))

scheduler-AreUnset : AreUnset Scheduler.defaults
unfolding default_in text_eq
scheduler-AreUnset = (refl, (refl, (refl, (refl, (refl, (refl, tt))))))

api_gateway-AreUnset : AreUnset ApiGateway.defaults
unfolding default_in text_eq
api_gateway-AreUnset = (refl, (refl, (refl, (refl, (refl, (refl, tt))))))

bare :
    (dsn : Text)
    → IsBare (record {
      dsn = dsn;
      max_conns = pos 0;
      min_conns = pos 0;
      max_conn_lifetime = pos 0;
      max_conn_idle_time = pos 0;
      health_check_period = pos 0;
      query_timeout = pos 0;
    })
unfolding pool_config with_timeout
bare dsn = (λ pcfg. refl, refl)

module _ {V F : Type 0} (v : Viper V F) where
  db-IsBare : (look : Lookup) → AreFree look field_keys → Answers IsBare (unmarshal_db v look)
  unfolding unmarshal_db
  db-IsBare look (a, (b, (c, (d, (e, (f, _)))))) =
      after IsBare (text_at v look (codes "db.dsn")) _
        (λ dsn read. rw (a, b, c, d, e, f) (bare dsn))

  read-IsBare :
      (look : Lookup) (cfg : DbConfig)
      → AreFree look field_keys
      → unmarshal_db v look ≡ ok cfg
      → IsBare cfg
  read-IsBare look cfg free read = subst (Answers IsBare) read (db-IsBare look free)

  ping_worker-IsBare :
      (look : Lookup)
      → AreFree look field_keys
      → Answers (λ c. IsBare c.db) (PingWorker.unmarshal v look)
  unfolding PingWorker.unmarshal
  ping_worker-IsBare look free =
      let P : PingWorker.Config F → Type 0 = λ c. IsBare c.db in
      after P (unmarshal_db v look) _ (λ db read.
        after P (PingWorker.unmarshal_kafka_in v look) _ (λ _ _.
          after P (PingWorker.unmarshal_kafka_out v look) _ (λ _ _.
            after P (PingWorker.unmarshal_http v look) _ (λ _ _.
              after P (unmarshal_server v look) _ (λ _ _. after P (unmarshal_log v look) _ (λ _ _.
                after P (unmarshal_otel v look) _ (λ _ _. read-IsBare look db free read)))))))

  email_notifier-IsBare :
      (look : Lookup)
      → AreFree look field_keys
      → Answers (λ c. IsBare c.db) (EmailNotifier.unmarshal v look)
  unfolding EmailNotifier.unmarshal
  email_notifier-IsBare look free =
      let P : EmailNotifier.Config F → Type 0 = λ c. IsBare c.db in
      after P (unmarshal_db v look) _ (λ db read.
        after P (EmailNotifier.unmarshal_kafka_in v look) _ (λ _ _.
          after P (EmailNotifier.unmarshal_smtp v look) _ (λ _ _.
            after P (unmarshal_server v look) _ (λ _ _.
              after P (unmarshal_log v look) _ (λ _ _.
                after P (unmarshal_otel v look) _ (λ _ _. read-IsBare look db free read))))))

  scheduler-IsBare :
      (look : Lookup)
      → AreFree look field_keys
      → Answers (λ c. IsBare c.db) (Scheduler.unmarshal v look)
  unfolding Scheduler.unmarshal
  scheduler-IsBare look free =
      let P : Scheduler.Config F → Type 0 = λ c. IsBare c.db in
      after P (unmarshal_db v look) _ (λ db read.
        after P (Scheduler.unmarshal_kafka v look) _ (λ _ _.
          after P (Scheduler.unmarshal_sched v look) _ (λ _ _.
            after P (unmarshal_log v look) _
              (λ _ _. after P (unmarshal_otel v look) _ (λ _ _. read-IsBare look db free read)))))

  api_gateway-IsBare :
      (look : Lookup)
      → AreFree look field_keys
      → Answers (λ c. IsBare c.db) (ApiGateway.unmarshal v look)
  unfolding ApiGateway.unmarshal
  api_gateway-IsBare look free =
      let P : ApiGateway.Config F → Type 0 = λ c. IsBare c.db in
      after P (ApiGateway.unmarshal_app v look) _ (λ _ _.
        after P (ApiGateway.unmarshal_server v look) _ (λ _ _.
          after P (unmarshal_db v look) _ (λ db read. after P (unmarshal_otel v look) _ (λ _ _.
            after P (unmarshal_log v look) _ (λ _ _.
              after P (ApiGateway.unmarshal_auth v look) _
                (λ _ _. read-IsBare look db free read))))))

  require_dsn-IsBare :
      (c : ApiGateway.Config F)
      → IsBare c.db
      → Answers (λ c. IsBare c.db) (ApiGateway.require_dsn v c)
  unfolding ApiGateway.require_dsn
  require_dsn-IsBare c h = elim (Bool-cases (is_empty c.db.dsn)) [
    | inl absent ↦ rw absent tt
    | inr there ↦ rw there h
  ]

  module _ (l : IsLayered v) where
    -- Neither the file nor the environment has the keys of the fields.
    abbrev pub AreAbsent : List (Text × Value) → Text → Type 0
    AreAbsent defaults path = AreFree (l.given (prepared v defaults path)) field_keys

    layered-AreFree :
        (defaults : List (Text × Value)) (path : Text) (keys : List Text)
        → AreFree (l.given (prepared v defaults path)) keys
        → AreFree (λ key. default_in defaults key none) keys
        → AreFree (layered v l defaults path) keys
    layered-AreFree defaults path [] h g = tt
    layered-AreFree defaults path (k ∷ ks) (h, more) (g, rest) =
        (rw h g, layered-AreFree defaults path ks more rest)

    -- For a viper with the laws of IsLayered, where neither the file nor the environment has a key
    -- db.maxconns, db.minconns, db.maxconnlifetime, db.maxconnidletime, db.healthcheckperiod or
    -- db.querytimeout: whatever the configuration has under the keys with underscores, the settings of
    -- the pool are those of the DSN and no query gets a timeout, in each of the four programs.
    pub load-IsBare :
        (path : Text)
        → AreAbsent PingWorker.defaults path
        → AreAbsent EmailNotifier.defaults path
        → AreAbsent Scheduler.defaults path
        → AreAbsent ApiGateway.defaults path
        → Answers (λ c. IsBare c.db) (PingWorker.load v path)
          × Answers (λ c. IsBare c.db) (EmailNotifier.load v path)
          × Answers (λ c. IsBare c.db) (Scheduler.load v path)
          × Answers (λ c. IsBare c.db) (ApiGateway.load v path)
    load-IsBare path p n s a =
        let (worker, notifier, scheduler, gateway) = load-layered v l path in
        (
          rw worker (
              ping_worker-IsBare _
                (layered-AreFree PingWorker.defaults path field_keys p ping_worker-AreUnset)),
          rw notifier (
              email_notifier-IsBare _
                (layered-AreFree EmailNotifier.defaults path field_keys n email_notifier-AreUnset)),
          rw scheduler (
              scheduler-IsBare _
                (layered-AreFree Scheduler.defaults path field_keys s scheduler-AreUnset)),
          rw gateway (
              after_both (λ c. IsBare c.db) _ _
                (api_gateway-IsBare _
                  (layered-AreFree ApiGateway.defaults path field_keys a api_gateway-AreUnset))
                require_dsn-IsBare),
        )
