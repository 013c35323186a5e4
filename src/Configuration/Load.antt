-- ===== src/Configuration/Load.antt =====
-- internal/config/config.go: `LoadFromEnvironment` and `Validate`.
use go_task_q.Time.{Duration}
use go_task_q.Configuration.{Config, default}
use go_task_q.Base.{
  ltb_ℤ, pos, neg_part, leb_ℤ, ◌&&◌, false, true, ◌==◌, ◌+◌, pos_part, codes, length, none, ◌^◌,
  atoi, leb, bytes_eq, split, [], any, some, ℤ, if◌then◌else◌, ◌∷◌, Bool, ℕ, String, Option, List,
  Bytes,
}

-- `LookupEnv`; `none` is a variable that is not set.
abbrev pub Environment : Type 0
Environment = String → Option Bytes

pub data ConfigError : Type 0 where
  dsn_required brokers_required topic_required concurrency_not_positive : ConfigError
  timeout_not_positive redirects_negative : ConfigError

-- A variable that is empty is none.
abbrev pub non_empty : Option Bytes → Option Bytes
non_empty (some (c ∷ v)) = some (c ∷ v)
non_empty _ = none

-- `strconv.ParseInt` in so many bits: from `- half` to `half - 1`.
abbrev pub in_bits : ℕ → Option ℤ → Option ℤ
in_bits half none = none
in_bits half (some n) = if leb (pos_part n + 1) half && leb (neg_part n) half then some n else none

abbrev truths : List String
truths = "1" ∷ "t" ∷ "T" ∷ "TRUE" ∷ "true" ∷ "True" ∷ []

abbrev falsehoods : List String
falsehoods = "0" ∷ "f" ∷ "F" ∷ "FALSE" ∷ "false" ∷ "False" ∷ []

-- `strconv.ParseBool`.
abbrev pub parse_bool : Bytes → Option Bool
parse_bool v =
    if any (λ w. bytes_eq (codes w) v) truths
    then some true
    else if any (λ w. bytes_eq (codes w) v) falsehoods
    then some false
    else none

-- A value that cannot be read leaves the default.
abbrev pub or_default {ℓ} : {A : Type ℓ} → A → Option A → A
or_default d none = d
or_default d (some a) = a

abbrev pub read_with {ℓ} : {A : Type ℓ} → (Bytes → Option A) → Option Bytes → Option A
read_with parse none = none
read_with parse (some v) = parse v

module _ (parse_duration : Bytes → Option Duration) (env : Environment) where
  abbrev pub lookup : String → Option Bytes
  lookup key = non_empty (env key)

  abbrev pub str : String → Bytes → Bytes
  str key d = or_default d (lookup key)

  abbrev pub strs : String → List Bytes → List Bytes
  strs key d = or_default d (read_with (λ v. some (split b',' v)) (lookup key))

  abbrev pub dur : String → Duration → Duration
  dur key d = or_default d (read_with parse_duration (lookup key))

  abbrev pub intv : String → ℤ → ℤ
  intv key d = or_default d (read_with atoi (lookup key))

  abbrev pub int32 : String → ℤ → ℤ
  int32 key d = or_default d (read_with (λ v. in_bits (2 ^ 31) (atoi v)) (lookup key))

  abbrev pub int16 : String → ℤ → ℤ
  int16 key d = or_default d (read_with (λ v. in_bits (2 ^ 15) (atoi v)) (lookup key))

  abbrev pub boolv : String → Bool → Bool
  boolv key d = or_default d (read_with parse_bool (lookup key))

  unfoldable pub merged : Config
  merged = record {
    http = record {
      address = str "HTTP_ADDRESS" default.http.address;
      read_timeout = dur "HTTP_READ_TIMEOUT" default.http.read_timeout;
      write_timeout = dur "HTTP_WRITE_TIMEOUT" default.http.write_timeout;
      idle_timeout = dur "HTTP_IDLE_TIMEOUT" default.http.idle_timeout;
    };
    kafka = record {
      brokers = strs "KAFKA_BROKERS" default.kafka.brokers;
      topic = str "KAFKA_TOPIC" default.kafka.topic;
      consumer_group = str "KAFKA_CONSUMER_GROUP" default.kafka.consumer_group;
      client_id = str "KAFKA_CLIENT_ID" default.kafka.client_id;
      required_acks = int16 "KAFKA_REQUIRED_ACKS" default.kafka.required_acks;
      compression_codec = intv "KAFKA_COMPRESSION_CODEC" default.kafka.compression_codec;
      flush_frequency_ms = intv "KAFKA_FLUSH_FREQUENCY_MS" default.kafka.flush_frequency_ms;
      flush_bytes = intv "KAFKA_FLUSH_BYTES" default.kafka.flush_bytes;
      channel_buffer_size = intv "KAFKA_CHANNEL_BUFFER_SIZE" default.kafka.channel_buffer_size;
    };
    redis = record {
      addresses = strs "REDIS_ADDRESSES" default.redis.addresses;
      username = str "REDIS_USERNAME" default.redis.username;
      password = str "REDIS_PASSWORD" default.redis.password;
      database = intv "REDIS_DATABASE" default.redis.database;
      pool_size = intv "REDIS_POOL_SIZE" default.redis.pool_size;
    };
    postgres = record {
      dsn = str "POSTGRES_DSN" default.postgres.dsn;
      max_conns = int32 "POSTGRES_MAX_CONNS" default.postgres.max_conns;
      min_conns = int32 "POSTGRES_MIN_CONNS" default.postgres.min_conns;
      migrations_path = str "POSTGRES_MIGRATIONS_PATH" default.postgres.migrations_path;
      max_conn_lifetime = dur "POSTGRES_MAX_CONN_LIFETIME" default.postgres.max_conn_lifetime;
      max_conn_idle_time = dur "POSTGRES_MAX_CONN_IDLE_TIME" default.postgres.max_conn_idle_time;
      health_check_period = dur "POSTGRES_HEALTH_CHECK_PERIOD" default.postgres.health_check_period;
    };
    worker = record {
      concurrency = intv "WORKER_CONCURRENCY" default.worker.concurrency;
      queue_size = intv "WORKER_QUEUE_SIZE" default.worker.queue_size;
      shutdown_timeout = dur "WORKER_SHUTDOWN_TIMEOUT" default.worker.shutdown_timeout;
    };
    scheduler = record {
      enabled = boolv "SCHEDULER_ENABLED" default.scheduler.enabled;
      tick_interval = dur "SCHEDULER_TICK_INTERVAL" default.scheduler.tick_interval;
      max_concurrent_runs =
          intv "SCHEDULER_MAX_CONCURRENT_RUNS" default.scheduler.max_concurrent_runs;
    };
    reconciler = record {
      enabled = boolv "RECONCILER_ENABLED" default.reconciler.enabled;
      interval = dur "RECONCILER_INTERVAL" default.reconciler.interval;
      idle_interval = dur "RECONCILER_IDLE_INTERVAL" default.reconciler.idle_interval;
      batch_size = intv "RECONCILER_BATCH_SIZE" default.reconciler.batch_size;
      running_lease = dur "RECONCILER_RUNNING_LEASE" default.reconciler.running_lease;
    };
    metrics = record {
      namespace = str "METRICS_NAMESPACE" default.metrics.namespace;
      subsystem = str "METRICS_SUBSYSTEM" default.metrics.subsystem;
      listen_address = str "METRICS_LISTEN_ADDRESS" default.metrics.listen_address;
    };
    logger = record {
      level = str "LOG_LEVEL" default.logger.level;
      format = str "LOG_FORMAT" default.logger.format;
      service_name = str "LOG_SERVICE_NAME" default.logger.service_name;
      environment = str "LOG_ENVIRONMENT" default.logger.environment;
      pretty = boolv "LOG_PRETTY" default.logger.pretty;
      add_caller = boolv "LOG_ADD_CALLER" default.logger.add_caller;
    };
    webhook = record {
      timeout = dur "WEBHOOK_TIMEOUT" default.webhook.timeout;
      max_redirects = intv "WEBHOOK_MAX_REDIRECTS" default.webhook.max_redirects;
      allow_private_networks =
          boolv "WEBHOOK_ALLOW_PRIVATE_NETWORKS" default.webhook.allow_private_networks;
    };
  }

-- `none` is `nil`.
unfoldable pub validate : Config → Option ConfigError
validate cfg =
    if bytes_eq cfg.postgres.dsn []
    then some dsn_required
    else if length cfg.kafka.brokers == 0
    then some brokers_required
    else if bytes_eq cfg.kafka.topic []
    then some topic_required
    else if leb_ℤ cfg.worker.concurrency (pos 0)
    then some concurrency_not_positive
    else if leb_ℤ cfg.webhook.timeout (pos 0)
    then some timeout_not_positive
    else if ltb_ℤ cfg.webhook.max_redirects (pos 0)
    then some redirects_negative
    else none

unfoldable pub load_from_environment :
    (Bytes → Option Duration) → Environment → Config × Option ConfigError
unfolding merged validate
load_from_environment parse_duration env =
    let cfg = merged parse_duration env in (cfg, validate cfg)
