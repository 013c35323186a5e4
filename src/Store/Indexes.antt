-- ===== src/Store/Indexes.antt =====
-- internal/store: every operation keeps the identifiers and the idempotency keys distinct.
use go_task_q.Store.Follows.Writes.{when_ok-db, alone}
use go_task_q.Store.Create.{key_taken, has_id, new_row, insert_row, create_job}
use go_task_q.Store.Leases.{requeue_expired_running, release_claim, renew_lease}
use go_task_q.Store.Claim.{claimed_row, claimable, claim_row, claim_next_job}
use go_task_q.Store.Table.{first_row, Db, deliver, exec_update}
use go_task_q.Store.Update.{check_transition, cancel_job, update_job}
use go_task_q.Base.{
  true, false, refl, [], ◌∷◌, ◌++◌, inr, if◌then◌else◌, pos, none, inl, leb_ℤ, sym, ℕ, str_eq, some,
  Option-cases, any, subst, Option, if_both, ◌≡◌, ℤ, Bool, String,
}
use go_task_q.Store.Rows.{
  ok, duplicate_key, other_error, err, lost, refused, done, Result, Row, Answer, NullText,
}
use go_task_q.Time.{Duration, Time}
use go_task_q.Models.{dead, Job}
use go_task_q.Store.Unique.{IsUnique-concat, IsUnique-update_rows, IsUnique}
use go_task_q.Store.Follows.{ignore_affected-db, some_affected-db}
use go_task_q.Store.Follows.Leases.{scan_claimed-db}

IsUnique-exec_update :
    (a : Answer) (p : Row → Bool) (f : Row → Row) (db : Db)
    → ((r : Row) → (f r).id ≡ r.id)
    → ((r : Row) → (f r).idempotency_key ≡ r.idempotency_key)
    → IsUnique db
    → IsUnique (exec_update a p f db).1
unfolding exec_update
IsUnique-exec_update done p f db i k u = IsUnique-update_rows p f db i k u
IsUnique-exec_update refused p f db i k u = u
IsUnique-exec_update lost p f db i k u = IsUnique-update_rows p f db i k u

IsUnique-deliver :
    {A : Type 0} (a : Answer) (outcome : Result A × Db) (db : Db)
    → IsUnique db
    → IsUnique outcome.1
    → IsUnique (deliver a outcome db).1
unfolding deliver
IsUnique-deliver done outcome db u v = v
IsUnique-deliver refused outcome db u v = u
IsUnique-deliver lost outcome db u v = v

insert_row-IsUnique : (r : Row) (db : Db) → IsUnique db → IsUnique (insert_row r db).1
unfolding insert_row
insert_row-IsUnique r db u =
    choose (any (has_id r.id) db) refl (key_taken r.idempotency_key db) refl
  where
    choose :
        (b : Bool)
        → any (has_id r.id) db ≡ b
        → (c : Bool) → key_taken r.idempotency_key db ≡ c
        → IsUnique
            (if◌then◌else◌ {A = Result (Unit {0}) × Db} b
              (err other_error, db)
              (if c then (err duplicate_key, db) else (ok tt, db ++ r ∷ []))).1
    choose true e c k = u
    choose false e true k = u
    choose false e false k = IsUnique-concat db r e k u

pub create_job-IsUnique :
    (a : Answer) (now : Time) (job : Job) (db : Db)
    → IsUnique db
    → IsUnique (create_job a now job db).1
unfolding create_job
create_job-IsUnique a now job db u =
    IsUnique-deliver a (insert_row (new_row now job) db) db u
      (insert_row-IsUnique (new_row now job) db u)

pub update_job-IsUnique :
    (null_text : NullText) (answers : Bool) (a : Answer) (now : Time) (job : Job) (db : Db)
    → IsUnique db
    → IsUnique (update_job null_text answers alone a now job db).1
unfolding update_job
update_job-IsUnique null_text answers a now job db u =
    when_ok-db IsUnique (check_transition null_text answers job.id job.state db) db _ u λ w e.
      subst IsUnique (sym (some_affected-db _))
        (IsUnique-exec_update a _ _ db (λ r. refl) (λ r. refl) u)

pub cancel_job-IsUnique :
    (null_text : NullText) (answers : Bool) (a : Answer) (now : Time) (id : String) (db : Db)
    → IsUnique db
    → IsUnique (cancel_job null_text answers alone a now id db).1
unfolding cancel_job
cancel_job-IsUnique null_text answers a now id db u =
    when_ok-db IsUnique (check_transition null_text answers id dead db) db _ u λ w e.
      subst IsUnique (sym (ignore_affected-db _))
        (IsUnique-exec_update a _ _ db (λ r. refl) (λ r. refl) u)

claim_row-IsUnique :
    (locked : String → Bool) (db_now now : Time) (lease : Duration) (token : String) (db : Db)
    → IsUnique db
    → IsUnique (claim_row locked db_now now lease token db).1
unfolding claim_row
claim_row-IsUnique locked db_now now lease token db u =
    elim (Option-cases (first_row (claimable locked db_now) Row.scheduled_at db)) [
      | inl e ↦ rw (e, claim_row) u
      | inr (r, e) ↦
          rw (e, claim_row)
            (IsUnique-update_rows _ (claimed_row now lease token) db (λ s. refl) (λ s. refl) u)
    ]

pub claim_next_job-IsUnique :
    (null_text : NullText) (locked : String → Bool) (db_now now : Time) (lease : Duration)
    (token : Option String) (a : Answer) (db : Db)
    → IsUnique db
    → IsUnique (claim_next_job null_text locked db_now now lease token a db).1
unfolding claim_next_job
claim_next_job-IsUnique null_text locked db_now now lease none a db u = u
claim_next_job-IsUnique null_text locked db_now now lease (some token) a db u =
    subst IsUnique (sym (scan_claimed-db null_text _))
      (IsUnique-deliver a _ db u (claim_row-IsUnique locked db_now now lease token db u))

pub release_claim-IsUnique :
    (a : Answer) (db_now : Time) (job : Job) (reason : String) (db : Db)
    → IsUnique db
    → IsUnique (release_claim a db_now job reason db).1
unfolding release_claim
release_claim-IsUnique a db_now job reason db u =
    subst IsUnique (sym (some_affected-db _))
      (IsUnique-exec_update a _ _ db (λ r. refl) (λ r. refl) u)

pub renew_lease-IsUnique :
    (a : Answer) (db_now now : Time) (job : Job) (lease : Duration) (db : Db)
    → IsUnique db
    → IsUnique (renew_lease a db_now now job lease db).1
unfolding renew_lease
renew_lease-IsUnique a db_now now job lease db u =
    if_both (λ (o : Result (Unit {0}) × Db). IsUnique o.1) (str_eq job.lease_token "") u
      (subst IsUnique (sym (some_affected-db _))
        (IsUnique-exec_update a _ _ db (λ r. refl) (λ r. refl) u))

pub requeue_expired_running-IsUnique :
    (locked : String → Bool) (db_now : Time) (a : Answer) (limit : ℤ) (db : Db)
    → IsUnique db
    → IsUnique (requeue_expired_running locked db_now a limit db).1
unfolding requeue_expired_running
requeue_expired_running-IsUnique locked db_now a limit db u =
    if_both (λ (o : Result ℕ × Db). IsUnique o.1) (leb_ℤ limit (pos 0)) u
      (IsUnique-exec_update a _ _ db (λ r. refl) (λ r. refl) u)
