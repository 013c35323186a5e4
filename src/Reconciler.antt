-- ===== src/Reconciler.antt =====
-- internal/reconciler/reconciler.go: one pass of the reconciler over the store, which gives back
-- the jobs of workers that have vanished and hands out those that are due.
pub mod Passes
pub mod Enqueues
pub mod Settings
pub mod Rejected
pub mod Lifecycle
use go_task_q.Store.Rows.{Answer, NullText, Result, ok, err, not_found}
use go_task_q.Breaker.{positive_or}
use go_task_q.Store.Table.{Db}
use go_task_q.Time.{Time, Duration, minute}
use go_task_q.Base.{
  ◌*◌, ltb_ℤ, zero, pos, ◌+◌, [], pos_part, Option, leb_ℤ, ◌||◌, ltb, true, ◌∷◌, suc, ℤ,
  if◌then◌else◌, List, Bool, ℕ, String,
}
use go_task_q.Models.{Job}
use go_task_q.Store.Leases.{release_claim, requeue_expired_running}
use go_task_q.Store.Claim.{claim_next_job}

pub record Config : Type 0 where
  pub interval : Duration
  pub idle_interval : Duration
  pub batch_size : ℤ
  pub running_lease : Duration

unfoldable pub new : Config → Config
new c =
    let interval = positive_or c.interval minute in
    let idle = if leb_ℤ c.idle_interval (pos 0) then interval else c.idle_interval in
    record {
      interval = interval;
      idle_interval = if ltb_ℤ idle interval then interval else idle;
      batch_size = positive_or c.batch_size 100;
      running_lease = positive_or c.running_lease (5 * minute);
    }

unfoldable pub next_interval : Config → Bool → Duration
next_interval c had_work = if had_work then c.interval else c.idle_interval

-- What one turn of the loop meets: whether the context is done, other clients of the table before
-- the claim, the rows they lock, the clocks, the token, the answer, whether the worker pool takes
-- the job, and the same for the release of a job that it does not take.
pub record Turn : Type 0 where
  pub ctx_done : Bool
  pub before_claim : Db → Db
  pub locked : String → Bool
  pub db_now : Time
  pub now : Time
  pub token : Option String
  pub claim_answer : Answer
  pub takes : Job → Bool
  pub before_release : Db → Db
  pub release_answer : Answer
  pub released_at : Time

-- The result of a pass, the table, and the jobs that the worker pool has taken, in order.
pub record Pass : Type 0 where
  pub had_work : Bool
  pub table : Db
  pub submitted : List Job

-- Behind the loop.
abbrev pub leaves : Bool → ℕ → Db → Pass
leaves had_work claimed db = record {
  had_work = ltb 0 claimed || had_work;
  table = db;
  submitted = [];
}

abbrev pub hands_out : Job → Pass → Pass
hands_out job p = record p { submitted = job ∷ p.submitted }

abbrev pub rejected_reason : String
rejected_reason = "worker pool rejected claimed job"

unfoldable pub put_back : Turn → Job → Db → Pass
put_back t job db = record {
  had_work = true;
  table =
      (release_claim t.release_answer t.released_at job rejected_reason (t.before_release db)).1;
  submitted = [];
}

-- `rest` is the loop after this turn.
abbrev pub take_claim : Turn → Bool → ℕ → (Db → Pass) → Result Job × Db → Pass
take_claim t had_work claimed rest (err not_found, db) = leaves had_work claimed db
take_claim t had_work claimed rest (err e, db) = record {
  had_work = true;
  table = db;
  submitted = [];
}
take_claim t had_work claimed rest (ok job, db) =
    if t.takes job then hands_out job (rest db) else put_back t job db

abbrev pub claim_at : NullText → Duration → Turn → Db → Result Job × Db
claim_at null_text lease t db =
    claim_next_job null_text t.locked t.db_now t.now lease t.token t.claim_answer
      (t.before_claim db)

-- The loop, by the number of claims that are still allowed; `claimed` have been made.
unfoldable pub claim_loop : NullText → Duration → (ℕ → Turn) → Bool → ℕ → ℕ → Db → Pass
unfolding put_back
claim_loop null_text lease turns had_work zero claimed db = leaves had_work claimed db
claim_loop null_text lease turns had_work (suc n) claimed db =
    let rest = claim_loop null_text lease turns had_work n (claimed + 1) in
    if (turns claimed).ctx_done
    then record { had_work = had_work; table = db; submitted = [] }
    else take_claim (turns claimed) had_work claimed rest
        (claim_at null_text lease (turns claimed) db)

-- `hadWork` after the recovery of stale jobs.
abbrev pub recovered_some : Result ℕ → Bool
recovered_some (ok n) = ltb 0 n
recovered_some (err e) = true

-- What the recovery meets.
pub record Recovery : Type 0 where
  pub before : Db → Db
  pub locked : String → Bool
  pub db_now : Time
  pub answer : Answer

unfoldable pub reconcile : NullText → Config → Recovery → (ℕ → Turn) → Db → Pass
unfolding claim_loop
reconcile null_text c r turns db =
    let recovery = requeue_expired_running r.locked r.db_now r.answer c.batch_size (r.before db) in
    claim_loop null_text c.running_lease turns (recovered_some recovery.0) (pos_part c.batch_size) 0
      recovery.1
