-- ===== src/Examples/Configurations.antt =====
-- internal/config/config.go: three environments.
use go_task_q.Configuration.{default}
use go_task_q.Configuration.Load.{Environment, concurrency_not_positive, load_from_environment}
use go_task_q.Configuration.Required.{IsSound, load_from_environment-IsSound}
use go_task_q.Time.{Duration}
use go_task_q.Base.{
  [], codes, negsuc, refl, ◌↔◌, Option, none, some, str_eq, if◌then◌else◌, Bytes, ◌≡◌, bytes_eq,
  String,
}

abbrev no_duration : Bytes → Option Duration
no_duration v = none

-- Numbers that cannot be read, and empty variables.
abbrev garbled : Environment
garbled key =
    if str_eq key "WORKER_CONCURRENCY"
    then some (codes "many")
    else if str_eq key "POSTGRES_DSN"
    then some []
    else none

keeps_default : load_from_environment no_duration garbled ≡ (default, none)
unfolding load_from_environment bytes_eq
keeps_default = refl

abbrev sized : String → Environment
sized name key = if str_eq key name then some (codes "-1") else none

no_workers :
    (load_from_environment no_duration (sized "WORKER_CONCURRENCY")).1
    ≡ some concurrency_not_positive
unfolding load_from_environment bytes_eq
no_workers = refl

-- A negative queue size is accepted.
negative_queue :
    ((load_from_environment no_duration (sized "WORKER_QUEUE_SIZE")).1 ≡ none)
    × ((load_from_environment no_duration (sized "WORKER_QUEUE_SIZE")).0.worker.queue_size
        ≡ negsuc 0)
unfolding load_from_environment bytes_eq
negative_queue = (refl, refl)

load_from_environment-IsSound_example :
    ((load_from_environment no_duration (sized "WORKER_QUEUE_SIZE")).1 ≡ none)
    ↔ IsSound (load_from_environment no_duration (sized "WORKER_QUEUE_SIZE")).0
load_from_environment-IsSound_example =
    load_from_environment-IsSound no_duration (sized "WORKER_QUEUE_SIZE")
