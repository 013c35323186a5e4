-- ===== src/Runner.antt =====
-- cmd/server/main.go: `jobWorker`, which runs one job under the breaker, the lock, the lease and the
-- retry policy. The metrics that it counts are left out.
pub mod Quiet
pub mod Endings
pub mod Stale
pub mod HalfDone
use go_task_q.Retry
use go_task_q.Retry.{Float}
use go_task_q.Breaker.{Breaker, allow, record_success, record_failure}
use go_task_q.Store.Table.{Db}
use go_task_q.Store.Rows.{ok, err, Result, Answer, StoreError, NullText}
use go_task_q.Time.{add, sub, minute, second, Time, Duration}
use Prim.Native.Char.{code}
use Prim.Native.String
use go_task_q.Base.{
  ◌==◌, false, ◌&&◌, str_eq, ◌||◌, pos, not, some, ltb_ℤ, ◌+ℤ◌, Bool, if◌then◌else◌, none, ◌*◌,
  true, Option, String, ℕ,
}
use go_task_q.Models.{state_eq, running, failed, completed, dead, pending, Job}
use go_task_q.Store.Update.{update_job}
use go_task_q.Store.Leases.{release_claim}

-- The error that a task handler returns; `permanent` is `errors.Is(err, retry.ErrNoRetry)`.
pub record RunError : Type 0 where
  pub text : String
  pub permanent : Bool

-- `handlers[name]`, each a function of the job.
abbrev pub Handlers : Type 0
Handlers = String → Option (Job → Option RunError)

-- What a call of `UpdateJob` meets: the effect of other clients before it and between its two
-- statements, whether its read is answered, the answer to its write, and the clock.
pub record StoreCall : Type 0 where
  pub before : Db → Db
  pub answers : Bool
  pub between : Db → Db
  pub answer : Answer
  pub now : Time

unfoldable pub call_update : NullText → StoreCall → Job → Db → Result (Unit {0}) × Db
call_update null_text c job db =
    update_job null_text c.answers c.between c.answer c.now job (c.before db)

pub data Returned : Type 0 where
  fine cancelled no_token : Returned
  store_failed : StoreError → Returned
  job_failed : RunError → Returned

pub record Outcome : Type 0 where
  pub returned : Returned
  pub table : Db
  pub breaker : Breaker

pub data Wait : Type 0 where
  go_on leave give_up : Wait

abbrev pub max_in_worker_sleep : ℕ
max_in_worker_sleep = 60 * second

-- `woken` tells whether the timer fires before the context is done.
unfoldable pub wait_for : Option Time → Time → Bool → Wait
wait_for none now woken = go_on
wait_for (some t) now woken =
    if ltb_ℤ (pos 0) (sub t now)
    then if ltb_ℤ (pos max_in_worker_sleep) (sub t now)
      then leave
      else if woken
      then go_on
      else give_up
    else go_on

unfoldable pub effective_lease : Duration → Duration
effective_lease lease = if ltb_ℤ (pos 0) lease then lease else pos (5 * minute)

-- `releaseClaim`: the store's error is logged only.
unfoldable pub give_back : Answer → Time → Job → String → Db → Db
give_back a db_now job reason db =
    if not (state_eq job.state running) || str_eq job.lease_token ""
    then db
    else (release_claim a db_now job reason db).1

-- The job as it is claimed when it did not arrive running.
unfoldable pub claimed_job : Time → Duration → String → Job → Job
claimed_job now lease token job = record job {
  attempt = job.attempt +ℤ pos 1;
  state = running;
  started_at = some now;
  lease_expires_at = some (add now (effective_lease lease));
  lease_token = token;
}

-- `%q` of `fmt`, for a text that can be printed: quotes around it, and a backslash before each quote
-- and each backslash.
abbrev pub escaped : String → String
escaped String.[] = ""
escaped (String.◌∷◌ c s) =
    let rest = String.◌∷◌ c (escaped s) in
    if code c == b'"' || code c == b'\\' then String.◌∷◌ "\\" rest else rest

abbrev pub unregistered : String → RunError
unregistered name = record {
  text =
      String.◌++◌ "worker: no handler registered for task \""
        (String.◌++◌ (escaped name) "\": retry: permanent failure, no retry");
  permanent = true;
}

unfoldable pub execute : Handlers → Job → Option RunError
execute handlers job = elim (handlers job.task.name) [
  | none ↦ some (unregistered job.task.name)
  | some h ↦ h job
]

unfoldable pub completed_job : Time → Job → Job
completed_job now job = record job {
  state = completed;
  completed_at = some now;
  lease_expires_at = none;
}

unfoldable pub failed_job : RunError → Job → Job
failed_job e job = record job { state = failed; last_error = e.text }

unfoldable pub rescheduled_job : Time → Job → Job
rescheduled_job next_run job = record job {
  state = pending;
  scheduled_at = some next_run;
  started_at = none;
  lease_expires_at = none;
}

unfoldable pub dead_job : RunError → Job → Job
dead_job e job = record job { state = dead; last_error = e.text; lease_expires_at = none }

-- What one run meets, apart from the job, the table and the breaker.
pub record Surroundings (f : Float) : Type 0 where
  pub null_text : NullText
  pub checked_at : Time
  pub woken : Bool
  pub asked_at : Time
  -- other clients of the table before `ReleaseClaim`, its answer, and the database's clock
  pub before_release : Db → Db
  pub release_answer : Answer
  pub released_at : Time
  -- whether the distributed lock is acquired
  pub locked : Bool
  -- the clock, the random token and the `UpdateJob` of a claim
  pub claimed_at : Time
  pub token : Option String
  pub claim_call : StoreCall
  -- the breaker's other users while the handler runs
  pub other_workers : Breaker → Breaker
  pub ended_at : Time
  -- the clocks, the random number and the two calls of `UpdateJob` that follow the handler; the
  -- lease renewals of the run itself are among the effects before the first
  pub stamped_at : Time
  pub random : f.Num
  pub first_call : StoreCall
  pub second_call : StoreCall

module _ (f : Float) (engine : Retry.Config f) (handlers : Handlers) (lease : Duration) where
  unfoldable pub should_retry : Job → RunError → Bool
  should_retry job e =
      if ltb_ℤ (pos 0) job.task.max_retries
      then not e.permanent && ltb_ℤ job.attempt job.task.max_retries
      else Retry.should_retry f engine job.attempt e.permanent

  abbrev pub reported : Result (Unit {0}) → Returned
  reported (ok u) = fine
  reported (err e) = store_failed e

  -- `scheduleRetry`: FAILED, and then PENDING with the backoff.
  abbrev pub second_update : Surroundings f → Job → Result (Unit {0}) × Db → Db
  second_update s job (err e, db) = db
  second_update s job (ok u, db) = (call_update s.null_text s.second_call job db).1

  unfoldable pub schedule_retry : Surroundings f → Job → RunError → Db → Db
  unfolding failed_job rescheduled_job
  schedule_retry s job e db =
      second_update s
        (rescheduled_job (add s.stamped_at (Retry.delay f engine job.attempt s.random))
          (failed_job e job))
        (call_update s.null_text s.first_call (failed_job e job) db)

  unfoldable pub dead_letter : Surroundings f → Job → RunError → Db → Db
  unfolding dead_job
  dead_letter s job e db = (call_update s.null_text s.first_call (dead_job e job) db).1

  unfoldable pub after_execute : Surroundings f → Job → Option RunError → Db → Breaker → Outcome
  unfolding completed_job
  after_execute s job (some e) db b = record {
    returned = job_failed e;
    table = if should_retry job e then schedule_retry s job e db else dead_letter s job e db;
    breaker = record_failure s.ended_at b;
  }
  after_execute s job none db b =
      let done_call = call_update s.null_text s.first_call (completed_job s.stamped_at job) db in
      record { returned = reported done_call.0; table = done_call.1; breaker = record_success b }

  -- The part of `Run` behind the claim.
  unfoldable pub run_claimed : Surroundings f → Job → Db → Breaker → Outcome
  unfolding execute
  run_claimed s job db b = after_execute s job (execute handlers job) db (s.other_workers b)

  abbrev pub after_claim : Surroundings f → Job → Breaker → Result (Unit {0}) × Db → Outcome
  after_claim s job b (ok u, db) = run_claimed s job db b
  after_claim s job b (err e, db) = record { returned = store_failed e; table = db; breaker = b }

  -- A job that arrives running has been claimed by the reconciler; any other is claimed here.
  unfoldable pub claim_and_run : Surroundings f → Job → Db → Breaker → Outcome
  unfolding claimed_job
  claim_and_run s job db b =
      if state_eq job.state running then run_claimed s job db b else elim s.token [
        | none ↦ record { returned = no_token; table = db; breaker = b }
        | some token ↦
            let claimed = claimed_job s.claimed_at lease token job in
            after_claim s claimed b (call_update s.null_text s.claim_call claimed db)
      ]

  unfoldable pub skip : Surroundings f → Job → String → Db → Breaker → Outcome
  unfolding give_back
  skip s job reason db b = record {
    returned = fine;
    table = give_back s.release_answer s.released_at job reason (s.before_release db);
    breaker = b;
  }

  unfoldable pub with_breaker : Surroundings f → Job → Db → Breaker × Bool → Outcome
  unfolding skip
  with_breaker s job db (b, false) = skip s job "circuit open" db b
  with_breaker s job db (b, true) =
      if s.locked
      then claim_and_run s job db b
      else skip s job "could not acquire execution lock" db b

  unfoldable pub run : Surroundings f → Job → Db → Breaker → Outcome
  unfolding wait_for with_breaker
  run s job db b = elim (wait_for job.scheduled_at s.checked_at s.woken) [
    | leave ↦ record { returned = fine; table = db; breaker = b }
    | give_up ↦ record { returned = cancelled; table = db; breaker = b }
    | go_on ↦ with_breaker s job db (allow s.asked_at b)
  ]
