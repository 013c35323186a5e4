-- ===== src/Service/Published.antt =====
-- internal/service/job_service.go: what is announced to the workers is stored.
use go_task_q.Service.{
  Surroundings, Outcome, enqueue, create_fresh, after_lookup, create, after_create, filled,
  should_publish_immediately, fails, returns_existing,
}
use go_task_q.Store.Rows.{
  duplicate_key, invalid_transition, not_found, other_error, err, ok, Result,
}
use go_task_q.Base.{
  ◌≤◌, arith, ◌⊎◌, Option-cases, refl, inr, inl, true, Bool-cases, some, none, str_eq, Option,
  if_both, ◌≡◌, String, All,
}
use go_task_q.Models.{Job}
use go_task_q.Store.Table.{find_row, Db}
use go_task_q.Store.Create.{new_row, has_id, create_job}
use go_task_q.Store.RoundTrip.{find-create_job}
use go_task_q.Time.{Time}

-- The job has no time of its own, or that time has come.
abbrev pub IsDue : Job → Time → Type 0
IsDue job now = (job.scheduled_at ≡ none) ⊎ ((t : Time) × (job.scheduled_at ≡ some t) × (t ≤ now))

should_publish-IsDue :
    (job : Job) (now : Time) → should_publish_immediately job now ≡ true → IsDue job now
unfolding should_publish_immediately
should_publish-IsDue job now h = elim (Option-cases job.scheduled_at) [
  | inl e ↦ inl e
  | inr (t, e) ↦ inr (t, e, ground (arith, h, e))
]

-- The published jobs are in the table, under the identifier that is returned, and are due.
abbrev pub AreStored : Surroundings → Outcome → Type 0
AreStored s o =
    All
      (λ (job : Job).
        (o.result ≡ ok job.id)
        × (find_row (has_id job.id) o.table ≡ some (new_row s.store_now job))
        × IsDue job s.now)
      o.published

returns_existing-AreStored :
    (s : Surroundings) (o : Result Job) (db : Db) → AreStored s (returns_existing o db)
returns_existing-AreStored s (ok job) db = tt
returns_existing-AreStored s (err e) db = tt

after_create-AreStored :
    (s : Surroundings) (job : Job) (o : Result (Unit {0}) × Db)
    → (o.0 ≡ ok tt → find_row (has_id job.id) o.1 ≡ some (new_row s.store_now job))
    → AreStored s (after_create s job o)
unfolding after_create
after_create-AreStored s job (ok u, db) h =
    elim (Bool-cases (should_publish_immediately job s.now)) [
      | inl t ↦ rw t ((refl, h refl, should_publish-IsDue job s.now t), tt)
      | inr f ↦ rw f tt
    ]
after_create-AreStored s job (err duplicate_key, db) h =
    if_both (AreStored s) (str_eq job.idempotency_key "") tt (returns_existing-AreStored s _ _)
after_create-AreStored s job (err not_found, db) h = tt
after_create-AreStored s job (err invalid_transition, db) h = tt
after_create-AreStored s job (err other_error, db) h = tt

create-AreStored :
    (s : Surroundings) (job : Job) (id : String) (db : Db) → AreStored s (create s job id db)
unfolding create
create-AreStored s job id db =
    let whole = filled id s.now job in
    after_create-AreStored s whole (create_job s.create_answer s.store_now whole db)
      (find-create_job s.create_answer s.store_now whole db)

create_fresh-AreStored :
    (s : Surroundings) (job : Job) (db : Db) → AreStored s (create_fresh s job db)
unfolding create_fresh
create_fresh-AreStored s job db =
    if_both (AreStored s) (str_eq job.id "") (random s.random_id) (create-AreStored s job job.id db)
  where
    random :
        (o : Option String)
        → AreStored s (elim o as (λ x. Outcome) [
          | none ↦ fails other_error db
          | some id ↦ create s job id db
        ])
    random none = tt
    random (some id) = create-AreStored s job id db

after_lookup-AreStored :
    (s : Surroundings) (job : Job) (o : Result Job) (db : Db)
    → AreStored s (after_lookup s job o db)
unfolding after_lookup
after_lookup-AreStored s job (ok existing) db = tt
after_lookup-AreStored s job (err not_found) db = create_fresh-AreStored s job (s.before_create db)
after_lookup-AreStored s job (err invalid_transition) db = tt
after_lookup-AreStored s job (err duplicate_key) db = tt
after_lookup-AreStored s job (err other_error) db = tt

-- Whatever other clients and the connection do: every job that `Enqueue` hands to the publisher has
-- just been inserted and is in the table as it was handed over, under the identifier that `Enqueue`
-- returns, and it has no scheduled time after the moment of the call. So a failed call, a duplicate and a job for later
-- publish nothing.
pub enqueue-AreStored : (s : Surroundings) (job : Job) (db : Db) → AreStored s (enqueue s job db)
unfolding enqueue
enqueue-AreStored s job db =
    if_both (AreStored s) (str_eq job.idempotency_key "") (create_fresh-AreStored s job db)
      (after_lookup-AreStored s job _ db)
