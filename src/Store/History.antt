-- ===== src/Store/History.antt =====
-- internal/store: any sequence of operations on the table, each carried out whole before the next.
use mathlib.Core.List.{Memᴰ}
use go_task_q.Store.Table.{Db}
use go_task_q.Store.Rows.{Answer, NullText, Row}
use go_task_q.Models.{dead, completed, Job, JobState}
use go_task_q.Store.Create.{create_job}
use go_task_q.Base.{
  refl, ℤ, inr, Option, inl, ◌⊎◌, String, sym, Bool, ◌≡◌, ◌∙◌, subst, [], ◌∷◌, List,
}
use go_task_q.Time.{Duration, Time}
use go_task_q.Store.State.{Moves-dead, Moves-completed, then, Moves, here, Move}
use go_task_q.Store.Unique.{IsUnique}
use go_task_q.Store.Follows.{create_job-Follows, Follows}
use go_task_q.Store.Indexes.{
  requeue_expired_running-IsUnique, release_claim-IsUnique, renew_lease-IsUnique,
  claim_next_job-IsUnique, cancel_job-IsUnique, update_job-IsUnique, create_job-IsUnique,
}
use go_task_q.Store.Update.{cancel_job, update_job}
use go_task_q.Store.Claim.{claim_next_job}
use go_task_q.Store.Follows.Writes.{cancel_job-Follows, alone, update_job-Follows}
use go_task_q.Store.Follows.Leases.{
  requeue_expired_running-Follows, release_claim-Follows, renew_lease-Follows,
  claim_next_job-Follows,
}
use go_task_q.Store.Leases.{requeue_expired_running, release_claim, renew_lease}

pub data Op : Type 0 where
  creates : Answer → Time → Job → Op
  updates : Bool → Answer → Time → Job → Op
  cancels : Bool → Answer → Time → String → Op
  claims : (String → Bool) → Time → Time → Duration → Option String → Answer → Op
  renews : Answer → Time → Time → Job → Duration → Op
  releases : Answer → Time → Job → String → Op
  requeues : (String → Bool) → Time → Answer → ℤ → Op

pub step : NullText → Op → Db → Db
step null_text (creates a now job) db = (create_job a now job db).1
step null_text (updates answers a now job) db = (update_job null_text answers alone a now job db).1
step null_text (cancels answers a now id) db = (cancel_job null_text answers alone a now id db).1
step null_text (claims locked db_now now lease token a) db =
    (claim_next_job null_text locked db_now now lease token a db).1
step null_text (renews a db_now now job lease) db = (renew_lease a db_now now job lease db).1
step null_text (releases a db_now job reason) db = (release_claim a db_now job reason db).1
step null_text (requeues locked db_now a limit) db =
    (requeue_expired_running locked db_now a limit db).1

pub run : NullText → List Op → Db → Db
run null_text [] db = db
run null_text (op ∷ ops) db = run null_text ops (step null_text op db)

step-Follows :
    (null_text : NullText) (op : Op) (db : Db) → IsUnique db → Follows db (step null_text op db)
unfolding step
step-Follows null_text (creates a now job) db u = create_job-Follows a now job db
step-Follows null_text (updates answers a now job) db u =
    update_job-Follows null_text answers a now job db u
step-Follows null_text (cancels answers a now id) db u =
    cancel_job-Follows null_text answers a now id db u
step-Follows null_text (claims locked db_now now lease token a) db u =
    claim_next_job-Follows null_text locked db_now now lease token a db u
step-Follows null_text (renews a db_now now job lease) db u =
    renew_lease-Follows a db_now now job lease db
step-Follows null_text (releases a db_now job reason) db u =
    release_claim-Follows a db_now job reason db
step-Follows null_text (requeues locked db_now a limit) db u =
    requeue_expired_running-Follows locked db_now a limit db u

step-IsUnique :
    (null_text : NullText) (op : Op) (db : Db) → IsUnique db → IsUnique (step null_text op db)
unfolding step
step-IsUnique null_text (creates a now job) db u = create_job-IsUnique a now job db u
step-IsUnique null_text (updates answers a now job) db u =
    update_job-IsUnique null_text answers a now job db u
step-IsUnique null_text (cancels answers a now id) db u =
    cancel_job-IsUnique null_text answers a now id db u
step-IsUnique null_text (claims locked db_now now lease token a) db u =
    claim_next_job-IsUnique null_text locked db_now now lease token a db u
step-IsUnique null_text (renews a db_now now job lease) db u =
    renew_lease-IsUnique a db_now now job lease db u
step-IsUnique null_text (releases a db_now job reason) db u =
    release_claim-IsUnique a db_now job reason db u
step-IsUnique null_text (requeues locked db_now a limit) db u =
    requeue_expired_running-IsUnique locked db_now a limit db u

-- What a sequence of operations may do to a row.
pub record RowTrace (r s : Row) : Type 0 where
  pub same_id : s.id ≡ r.id
  pub same_key : s.idempotency_key ≡ r.idempotency_key
  pub same_created : s.created_at ≡ r.created_at
  pub moves : Moves r.state s.state

abbrev pub Traces : Db → Db → Type 0
Traces [] db = Unit
Traces (r ∷ db) [] = ⊥
Traces (r ∷ db) (s ∷ db') = RowTrace r s × Traces db db'

Moves-first : {s t u : JobState} → Move s t → Moves t u → Moves s u
Moves-first m here = then here m
Moves-first m (then ms n) = then (Moves-first m ms) n

Traces-refl : (db : Db) → Traces db db
Traces-refl [] = tt
Traces-refl (r ∷ db) =
    (record { same_id = refl; same_key = refl; same_created = refl; moves = here }, Traces-refl db)

Traces-first : (db db' db'' : Db) → Follows db db' → Traces db' db'' → Traces db db''
Traces-first [] db' db'' f t = tt
Traces-first (r ∷ db) [] db'' f t = absurd f
Traces-first (r ∷ db) (s ∷ db') [] f t = t
Traces-first (r ∷ db) (s ∷ db') (q ∷ db'') (f, fs) (t, ts) = (
  record {
    same_id = t.same_id ∙ f.same_id;
    same_key = t.same_key ∙ f.same_key;
    same_created = t.same_created ∙ f.same_created;
    moves = Moves-first f.moves t.moves;
  },
  Traces-first db db' db'' fs ts,
)

-- Any sequence of `CreateJob`, `UpdateJob`, `CancelJob`, `ClaimNextJob`, `RenewLease`,
-- `ReleaseClaim` and `RequeueExpiredRunning`, with whatever arguments, clocks, locks of others and
-- connection errors, but each carried out before the next: from a table with distinct identifiers
-- and distinct idempotency keys it leads to such a table again, loses no row, never changes a
-- row's identifier, idempotency key or creation time, and moves each row's state along the
-- lifecycle: an edge that `CanTransition` allows, or running to pending.
pub run_lifecycle :
    (null_text : NullText) (ops : List Op) (db : Db)
    → IsUnique db
    → IsUnique (run null_text ops db) × Traces db (run null_text ops db)
unfolding run
run_lifecycle null_text [] db u = (u, Traces-refl db)
run_lifecycle null_text (op ∷ ops) db u =
    let (u', ts) =
      run_lifecycle null_text ops (step null_text op db) (step-IsUnique null_text op db u) in
    (u', Traces-first db _ _ (step-Follows null_text op db u) ts)

Traces-mem :
    (db db' : Db) (r : Row) → Traces db db' → Memᴰ r db → (s : Row) × Memᴰ s db' × RowTrace r s
Traces-mem [] db' r t m = elim m [ ]
Traces-mem (q ∷ db) [] r t m = absurd t
Traces-mem (q ∷ db) (s ∷ db') r (t, ts) (Memᴰ.head e) =
    (s, Memᴰ.head refl, subst (λ x. RowTrace x s) (sym e) t)
Traces-mem (q ∷ db) (s ∷ db') r (t, ts) (Memᴰ.tail m) =
    let (x, mx, tx) = Traces-mem db db' r ts m in (x, Memᴰ.tail mx, tx)

-- A job that is completed, or dead, in a table with distinct identifiers and keys is still there,
-- in that same state, after any sequence of operations, each carried out before the next.
pub terminal_stays :
    (null_text : NullText) (ops : List Op) (db : Db) (r : Row)
    → IsUnique db
    → Memᴰ r db
    → (r.state ≡ completed) ⊎ (r.state ≡ dead)
    → (s : Row) × Memᴰ s (run null_text ops db) × (s.id ≡ r.id) × (s.state ≡ r.state)
terminal_stays null_text ops db r u m (inl c) =
    let (s, ms, t) = Traces-mem db _ r (run_lifecycle null_text ops db u).1 m in
    (s, ms, t.same_id, Moves-completed t.moves c ∙ sym c)
terminal_stays null_text ops db r u m (inr d) =
    let (s, ms, t) = Traces-mem db _ r (run_lifecycle null_text ops db u).1 m in
    (s, ms, t.same_id, Moves-dead t.moves d ∙ sym d)
