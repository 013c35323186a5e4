-- ===== src/Service/Idempotency.antt =====
-- internal/service/job_service.go: an idempotency key stands for one job.
use go_task_q.Store.Create.{
  text_is, key_taken, scan_found, create_job, new_row, has_key, get_job_by_idempotency_key,
}
use go_task_q.Base.{
  Bool-cases, ◌&&◌, if◌then◌else◌, ◌∙◌, str_eq, none, str_eq_iff, sym, Option, ap, if_both, refl,
  ◌≢◌, subst, inr, arith, some, inl, false, Option-cases, true, ◌≡◌, Bool, String,
}
use go_task_q.Store.Rows.{
  other_error, duplicate_key, invalid_transition, Answer, not_found, nullable_string, eq_of_ok, err,
  Result, ok, Row, scan_job, NullText,
}
use go_task_q.Store.Table.{find_row, Db}
use go_task_q.Service.{
  fails, returns, after_create, filled, Surroundings, enqueue, create_fresh, after_lookup, create,
  returns_existing, Outcome,
}
use go_task_q.Models.{Job}
use go_task_q.Store.RoundTrip.{create_job-free, create_job-ok, find_row-concat}
use go_task_q.Time.{Time}
use go_task_q.Store.Readable.{scan_unreadable, scan_readable, readable}

-- The job that a table holds under a key.
abbrev pub Holds : String → String → Db → Type 0
Holds key id db = (r : Row) × (find_row (has_key key) db ≡ some r) × (r.id ≡ id)

scan_found-id :
    (null_text : NullText) (key : String) (db : Db) (job : Job)
    → get_job_by_idempotency_key null_text true key db ≡ ok job
    → Holds key job.id db
unfolding get_job_by_idempotency_key scan_job
scan_found-id null_text key db job h = elim (Option-cases (find_row (has_key key) db)) [
  | inl e ↦ absurd (ground arith)
  | inr (r, e) ↦ (r, e, ground arith)
]

lookup-Holds :
    (null_text : NullText) (answers : Bool) (key : String) (db : Db) (job : Job)
    → get_job_by_idempotency_key null_text answers key db ≡ ok job
    → Holds key job.id db
lookup-Holds null_text true key db job h = scan_found-id null_text key db job h
lookup-Holds null_text false key db job h = unfold get_job_by_idempotency_key in cc

enqueue-keyed :
    (s : Surroundings) (job : Job) (db : Db)
    → job.idempotency_key ≢ ""
    → enqueue s job db
      ≡ after_lookup s job
          (get_job_by_idempotency_key s.null_text s.first_answers job.idempotency_key db)
          db
unfolding enqueue
enqueue-keyed s job db n =
    let keyed : str_eq job.idempotency_key "" ≡ false =
      ground (arith, str_eq_iff job.idempotency_key "") in
    rw keyed refl

-- What an enqueue owes to a caller who gave a key.
abbrev Owes : String → Outcome → Type 0
Owes key o = (id : String) → o.result ≡ ok id → Holds key id o.table

returns_existing-Owes :
    (null_text : NullText) (answers : Bool) (key : String) (db : Db)
    → Owes key (returns_existing (get_job_by_idempotency_key null_text answers key db) db)
returns_existing-Owes null_text answers key db =
    go (get_job_by_idempotency_key null_text answers key db) refl
  where
    go :
        (o : Result Job)
        → get_job_by_idempotency_key null_text answers key db ≡ o
        → Owes key (returns_existing o db)
    go (ok job) e id h =
        subst (λ x. Holds key x db) (eq_of_ok h) (lookup-Holds null_text answers key db job e)
    go (err x) e id h = cc

nullable_some : (key : String) → key ≢ "" → nullable_string key ≡ some key
nullable_some key n = ground (arith, str_eq_iff key "")

-- A stored job is found under its key.
create_job-Holds :
    (a : Answer) (now : Time) (job : Job) (db : Db)
    → job.idempotency_key ≢ ""
    → (create_job a now job db).0 ≡ ok tt
    → Holds job.idempotency_key job.id (create_job a now job db).1
unfolding new_row
create_job-Holds a now job db n h =
    let key = nullable_some job.idempotency_key n in
    (
      new_row now job,
      ap (find_row (has_key job.idempotency_key)) (create_job-ok a now job db h).1
          ∙ find_row-concat (has_key job.idempotency_key) db (new_row now job)
              (subst (λ k. key_taken k db ≡ false) key (create_job-free a now job db h))
              (ap (text_is job.idempotency_key) key
                ∙ (str_eq_iff job.idempotency_key job.idempotency_key).1 refl),
      refl,
    )

after_create-Owes :
    (s : Surroundings) (job : Job) (o : Result (Unit {0}) × Db)
    → (o.0 ≡ ok tt → Holds job.idempotency_key job.id o.1)
    → Owes job.idempotency_key (after_create s job o)
unfolding after_create
after_create-Owes s job (ok u, db) k id h =
    subst (λ x. Holds job.idempotency_key x db) (eq_of_ok h) (k refl)
after_create-Owes s job (err duplicate_key, db) k id h =
    if_both (Owes job.idempotency_key) (str_eq job.idempotency_key "") (λ x q. cc)
      (returns_existing-Owes s.null_text s.second_answers job.idempotency_key (s.before_lookup db))
      id h
after_create-Owes s job (err not_found, db) k id h = cc
after_create-Owes s job (err invalid_transition, db) k id h = cc
after_create-Owes s job (err other_error, db) k id h = cc

create-Owes :
    (s : Surroundings) (job : Job) (id : String) (db : Db)
    → job.idempotency_key ≢ ""
    → Owes job.idempotency_key (create s job id db)
unfolding create filled
create-Owes s job id db n =
    let whole = filled id s.now job in
    after_create-Owes s whole (create_job s.create_answer s.store_now whole db)
      (create_job-Holds s.create_answer s.store_now whole db n)

fresh-Owes :
    (s : Surroundings) (job : Job) (db : Db)
    → job.idempotency_key ≢ ""
    → Owes job.idempotency_key (create_fresh s job db)
unfolding create_fresh
fresh-Owes s job db n =
    if_both (Owes job.idempotency_key) (str_eq job.id "") (random s.random_id)
      (create-Owes s job job.id db n)
  where
    random :
        (o : Option String)
        → Owes job.idempotency_key (elim o as (λ x. Outcome) [
          | none ↦ fails other_error db
          | some id ↦ create s job id db
        ])
    random none = λ x q. cc
    random (some id) = create-Owes s job id db n

after_lookup-Owes :
    (s : Surroundings) (job : Job) (o : Result Job) (db : Db)
    → job.idempotency_key ≢ ""
    → get_job_by_idempotency_key s.null_text s.first_answers job.idempotency_key db ≡ o
    → Owes job.idempotency_key (after_lookup s job o db)
unfolding after_lookup
after_lookup-Owes s job (ok existing) db n e = λ id h.
    subst (λ x. Holds job.idempotency_key x db) (eq_of_ok h)
      (lookup-Holds s.null_text s.first_answers job.idempotency_key db existing e)
after_lookup-Owes s job (err not_found) db n e = fresh-Owes s job (s.before_create db) n
after_lookup-Owes s job (err invalid_transition) db n e = λ id h. cc
after_lookup-Owes s job (err duplicate_key) db n e = λ id h. cc
after_lookup-Owes s job (err other_error) db n e = λ id h. cc

-- When `Enqueue` succeeds for a job with an idempotency key, the table holds a job under that key,
-- and the identifier that `Enqueue` returns is that job's: whether the job was found, was inserted,
-- or lost a race to another client's job with the same key.
pub enqueue-Holds :
    (s : Surroundings) (job : Job) (db : Db) (id : String)
    → job.idempotency_key ≢ ""
    → (enqueue s job db).result ≡ ok id
    → Holds job.idempotency_key id (enqueue s job db).table
unfolding enqueue
enqueue-Holds s job db id n h =
    if_both (Owes job.idempotency_key) (str_eq job.idempotency_key "") (fresh-Owes s job db n)
      (after_lookup-Owes s job _ db n refl) id h

after_lookup-held :
    (s : Surroundings) (job : Job) (answers : Bool) (r : Row) (db : Db)
    → find_row (has_key job.idempotency_key) db ≡ some r
    → after_lookup s job (get_job_by_idempotency_key s.null_text answers job.idempotency_key db) db
      ≡ (if answers && readable s.null_text r then returns r.id db else fails other_error db)
unfolding get_job_by_idempotency_key after_lookup
after_lookup-held s job false r db e = refl
after_lookup-held s job true r db e = elim (Bool-cases (readable s.null_text r)) [
  | inl t ↦
      let (read, k, same) = scan_readable s.null_text r t in
      ap (λ o. after_lookup s job (scan_found s.null_text o) db) e
      ∙ ap (λ o. after_lookup s job o db) k
      ∙ rw t (ap (λ x. returns x db) same)
  | inr f ↦
      ap (λ o. after_lookup s job (scan_found s.null_text o) db) e
      ∙ ap (λ o. after_lookup s job o db) (scan_unreadable s.null_text r f)
      ∙ rw f refl
]

-- A retried request: after `Enqueue` has succeeded with `id` for a job with an idempotency key, the
-- table holds a row with the identifier `id` under that key, and every further `Enqueue` of a job
-- with that key on the table as it then stands creates nothing and publishes nothing. It returns
-- `id` again if the look-up is answered and the driver can read the row (a driver that refuses NULL
-- texts can if the row has a lease token), and fails if not.
pub enqueue_again :
    (s s' : Surroundings) (job again : Job) (db : Db) (id : String)
    → job.idempotency_key ≢ ""
    → again.idempotency_key ≡ job.idempotency_key
    → (enqueue s job db).result ≡ ok id
    → (r : Row) × (find_row (has_key job.idempotency_key) (enqueue s job db).table ≡ some r)
      × (r.id ≡ id)
      × (enqueue s' again (enqueue s job db).table ≡ (
          if s'.first_answers && readable s'.null_text r
          then returns id (enqueue s job db).table
          else fails other_error (enqueue s job db).table))
enqueue_again s s' job again db id n e h =
    let (r, found, same) = enqueue-Holds s job db id n h in
    let table = (enqueue s job db).table in
    (
      r,
      found,
      same,
      enqueue-keyed s' again table (λ q. n (sym e ∙ q))
          ∙ after_lookup-held s' again s'.first_answers r table
              (ap (λ k. find_row (has_key k) table) e ∙ found)
          ∙ ap
              (λ x.
                if s'.first_answers && readable s'.null_text r
                then returns x table
                else fails other_error table)
              same,
    )
