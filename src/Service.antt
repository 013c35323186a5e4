-- ===== src/Service.antt =====
-- internal/service/job_service.go: enqueuing and cancelling jobs over the store.
pub mod Idempotency
pub mod Published
use go_task_q.Models.{pending, is_unset, Job}
use go_task_q.Base.{
  not, some, true, none, str_eq, Option, ◌∷◌, [], List, if◌then◌else◌, Bool, String,
}
use go_task_q.Store.Rows.{
  other_error, duplicate_key, not_found, Answer, ok, err, NullText, Result, StoreError,
}
use go_task_q.Time.{after, Time}
use go_task_q.Store.Table.{Db}
use go_task_q.Store.Create.{get_job_by_idempotency_key, create_job}
use go_task_q.Store.Update.{cancel_job}

-- What the calls of `Enqueue` meet: the driver's NULL texts, the connection's answers to the three
-- statements, the effect of other clients between the first look-up and the INSERT and between the
-- INSERT and the second look-up, the random identifier, and the clocks of the service and of
-- `CreateJob`.
pub record Surroundings : Type 0 where
  pub null_text : NullText
  pub first_answers : Bool
  pub before_create : Db → Db
  pub create_answer : Answer
  pub before_lookup : Db → Db
  pub second_answers : Bool
  pub random_id : Option String
  pub now : Time
  pub store_now : Time

-- The result, the table, and the jobs handed to the background publisher (Kafka is best effort: a
-- failed publication is logged and changes nothing).
pub record Outcome : Type 0 where
  pub result : Result String
  pub table : Db
  pub published : List Job

abbrev pub fails : StoreError → Db → Outcome
fails e db = record { result = err e; table = db; published = [] }

abbrev pub returns : String → Db → Outcome
returns id db = record { result = ok id; table = db; published = [] }

unfoldable pub should_publish_immediately : Job → Time → Bool
should_publish_immediately job now = elim job.scheduled_at [
  | none ↦ true
  | some t ↦ not (after t now)
]

-- The fields that `Enqueue` fills in.
unfoldable pub filled : String → Time → Job → Job
filled id now job = record job {
  id = id;
  state = if is_unset job.state then pending else job.state;
  scheduled_at = elim job.scheduled_at [ none ↦ some now | some t ↦ some t ];
}

-- The second look-up, after `ErrDuplicateIdempotencyKey`.
abbrev pub returns_existing : Result Job → Db → Outcome
returns_existing (ok existing) db = returns existing.id db
returns_existing (err e) db = fails e db

unfoldable pub after_create : Surroundings → Job → Result (Unit {0}) × Db → Outcome
unfolding should_publish_immediately
after_create s job (ok u, db) = record {
  result = ok job.id;
  table = db;
  published = if should_publish_immediately job s.now then job ∷ [] else [];
}
after_create s job (err duplicate_key, db) =
    if str_eq job.idempotency_key ""
    then fails duplicate_key db
    else returns_existing
        (get_job_by_idempotency_key s.null_text s.second_answers job.idempotency_key
          (s.before_lookup db))
        (s.before_lookup db)
after_create s job (err e, db) = fails e db

unfoldable pub create : Surroundings → Job → String → Db → Outcome
unfolding after_create filled
create s job id db =
    let filled_job = filled id s.now job in
    after_create s filled_job (create_job s.create_answer s.store_now filled_job db)

-- The caller's identifier, or a random one.
unfoldable pub create_fresh : Surroundings → Job → Db → Outcome
unfolding create
create_fresh s job db =
    if str_eq job.id ""
    then elim s.random_id [ none ↦ fails other_error db | some id ↦ create s job id db ]
    else create s job job.id db

unfoldable pub after_lookup : Surroundings → Job → Result Job → Db → Outcome
unfolding create_fresh
after_lookup s job (ok existing) db = returns existing.id db
after_lookup s job (err not_found) db = create_fresh s job (s.before_create db)
after_lookup s job (err e) db = fails e db

unfoldable pub enqueue : Surroundings → Job → Db → Outcome
unfolding after_lookup create_fresh
enqueue s job db =
    if str_eq job.idempotency_key ""
    then create_fresh s job db
    else after_lookup s job
        (get_job_by_idempotency_key s.null_text s.first_answers job.idempotency_key db) db

-- `Cancel` wraps the store's error and hides none of the sentinels.
unfoldable pub cancel :
    NullText → Bool → (Db → Db) → Answer → Time → String → Db → Result (Unit {0}) × Db
cancel null_text answers between a now id db = cancel_job null_text answers between a now id db
