-- ===== src/Configuration/Required.antt =====
-- internal/config/config.go: what `LoadFromEnvironment` can refuse.
use go_task_q.Time.{Duration}
use go_task_q.Configuration.{Config, default}
use go_task_q.Configuration.Load.{
  Environment, non_empty, or_default, read_with, merged, validate, load_from_environment,
}
use go_task_q.Base.{
  arith, refl, split_nonempty, ◌↔◌, split, false, ◌∷◌, none, ◌==◌, some, length, ◌≡◌, ◌≤ℤ◌, Option,
  [], ◌<ℤ◌, List, pos, ◌≢◌, Bytes, bytes_eq,
}

or_default-nonempty : (d : Bytes) (o : Option Bytes) → d ≢ [] → or_default d (non_empty o) ≢ []
or_default-nonempty d none n = n
or_default-nonempty d (some []) n = n
or_default-nonempty d (some (c ∷ v)) n = λ e. cc

split-or_default-nonempty :
    (d : List Bytes) (o : Option Bytes)
    → d ≢ []
    → or_default d (read_with (λ v. some (split b',' v)) (non_empty o)) ≢ []
split-or_default-nonempty d none n = n
split-or_default-nonempty d (some []) n = n
split-or_default-nonempty d (some (c ∷ v)) n = split_nonempty b',' (c ∷ v)

no_bytes : (s : Bytes) → s ≢ [] → bytes_eq s [] ≡ false
unfolding bytes_eq
no_bytes [] n = absurd (n refl)
no_bytes (c ∷ s) n = refl

no_parts : (ps : List Bytes) → ps ≢ [] → (length ps == 0) ≡ false
no_parts [] n = absurd (n refl)
no_parts (p ∷ ps) n = ground arith

-- The settings that can be wrong.
pub record IsSound (cfg : Config) : Type 0 where
  pub concurrency : pos 0 <ℤ cfg.worker.concurrency
  pub timeout : pos 0 <ℤ cfg.webhook.timeout
  pub max_redirects : pos 0 ≤ℤ cfg.webhook.max_redirects

validate-IsSound :
    (cfg : Config)
    → cfg.postgres.dsn ≢ []
    → cfg.kafka.brokers ≢ []
    → cfg.kafka.topic ≢ []
    → (validate cfg ≡ none) ↔ IsSound cfg
unfolding validate
validate-IsSound cfg a b c =
    rw (no_bytes cfg.postgres.dsn a, no_parts cfg.kafka.brokers b, no_bytes cfg.kafka.topic c)
      (
        (λ h. record {
          concurrency = ground (arith, h);
          timeout = ground (arith, h);
          max_redirects = ground (arith, h);
        }),
        λ s.
            let k = s.concurrency in
            let t = s.timeout in let m = s.max_redirects in ground (arith, k, t, m),
      )

-- Whatever the environment, `LoadFromEnvironment` accepts it exactly when the number of workers and
-- the timeout of the webhooks come out positive and the number of redirects is not negative: the
-- DSN, the brokers and the topic that `Validate` asks for are always there, since a variable that is
-- not set or empty leaves the default.
pub load_from_environment-IsSound :
    (parse_duration : Bytes → Option Duration) (env : Environment)
    → ((load_from_environment parse_duration env).1 ≡ none)
      ↔ IsSound (load_from_environment parse_duration env).0
unfolding load_from_environment merged
load_from_environment-IsSound parse_duration env =
    validate-IsSound (merged parse_duration env)
      (or_default-nonempty default.postgres.dsn (env "POSTGRES_DSN") (λ e. cc))
      (split-or_default-nonempty default.kafka.brokers (env "KAFKA_BROKERS") (λ e. cc))
      (or_default-nonempty default.kafka.topic (env "KAFKA_TOPIC") (λ e. cc))
