-- ===== src/Runner/HalfDone.antt =====
-- cmd/server/main.go: `scheduleRetry`, when its second call of the store fails.
use go_task_q.Retry
use go_task_q.Retry.{Float}
use go_task_q.Runner.{
  execute, after_execute, run_claimed, RunError, Surroundings, rescheduled_job, failed_job,
  schedule_retry, call_update, Handlers, StoreCall, should_retry,
}
use go_task_q.Store.Claim.{claimable}
use go_task_q.Store.Rows.{ok, other_error, err, Result, NullText, refused, Row}
use go_task_q.Store.Leases.{expired}
use go_task_q.Store.Update.{check_transition, when_ok, updated_row, write_update, update_job}
use go_task_q.Base.{◌∙◌, true, ap, inl, some, refl, false, Bool, ◌≡◌, String}
use go_task_q.Time.{add, Time, Duration}
use go_task_q.Store.Table.{find_row, deliver, exec_update, Db}
use go_task_q.Models.{running, Job, failed}
use go_task_q.Store.State.{can_transition}
use go_task_q.Runner.Endings.{second_update-ok}
use go_task_q.Runner.Quiet.{
  readable-holder, IsScannable, may_update-holder, update_quiet, IsHolder, IsQuiet,
}
use go_task_q.Store.Create.{has_id}
use go_task_q.Breaker.{Breaker}

-- A call of `UpdateJob` whose write is not carried out.
pub record IsRefused (c : StoreCall) : Type 0 where
  pub alone_before : (db : Db) → c.before db ≡ db
  pub alone_between : (db : Db) → c.between db ≡ db
  pub not_carried_out : c.answer ≡ refused

call_update-refused :
    (null_text : NullText) (c : StoreCall) (job : Job) (db : Db)
    → IsRefused c
    → (call_update null_text c job db).1 ≡ db
unfolding call_update update_job write_update exec_update deliver
call_update-refused null_text c job db q = rw (q.not_carried_out) (
    rw (q.alone_before db)
      (rw (q.alone_between db) (go (check_transition null_text c.answers job.id job.state db))))
  where
    go : (o : Result (Unit {0})) → (when_ok o db (err other_error, db)).1 ≡ db
    go (ok u) = refl
    go (err e) = refl

-- Neither a claim nor the reconciler selects the row, whatever the clock and the locks are.
abbrev pub Stuck : Row → Type 0
Stuck r =
    (locked : String → Bool) (db_now : Time)
    → (claimable locked db_now r ≡ false) × (expired locked db_now r ≡ false)

failed-Stuck : (r : Row) → r.state ≡ failed → Stuck r
unfolding claimable expired
failed-Stuck r h locked db_now = (rw h refl, rw h refl)

module _ (f : Float) (engine : Retry.Config f) (handlers : Handlers) (lease : Duration) where
  schedule_retry_half :
      (s : Surroundings f) (job : Job) (e : RunError) (db : Db) (r : Row)
      → IsScannable s.null_text job r
      → IsQuiet s.first_call
      → IsRefused s.second_call
      → find_row (has_id job.id) db ≡ some r
      → r.state ≡ running
      → IsHolder job r
      → (q : Row) × (find_row (has_id job.id) (schedule_retry f engine handlers lease s job e db)
          ≡ some q)
        × (q.state ≡ failed)
  unfolding schedule_retry failed_job rescheduled_job updated_row can_transition
  schedule_retry_half s job e db r n q x found st held =
      let failing = failed_job e job in
      let (went, there) =
        update_quiet s.null_text s.first_call failing db r
          (readable-holder s.null_text job r n held) q found (rw st refl)
          (may_update-holder failing db r found (inl held)) in
      (
        updated_row s.first_call.now failing r,
        ap (find_row (has_id job.id)) (
              second_update-ok f engine handlers lease s
                (rescheduled_job (add s.stamped_at (Retry.delay f engine job.attempt s.random))
                  failing)
                (call_update s.null_text s.first_call failing db) went
              ∙ call_update-refused s.null_text s.second_call _
                  (call_update s.null_text s.first_call failing db).1 x)
            ∙ there,
        refl,
      )

  -- A handler has failed and the policy allows another attempt, the job's row is running with the
  -- job's own token, the driver scans NULL texts or the row has an idempotency key and the token is
  -- not empty, the first call of `UpdateJob` succeeds undisturbed and the write of the second
  -- is not carried out: then the row is FAILED after the run, a state in which neither
  -- `ClaimNextJob` nor `RequeueExpiredRunning` ever selects it again.
  pub retry_half_done :
      (s : Surroundings f) (job : Job) (e : RunError) (db : Db) (b : Breaker) (r : Row)
      → execute handlers job ≡ some e
      → should_retry f engine handlers lease job e ≡ true
      → IsScannable s.null_text job r
      → IsQuiet s.first_call
      → IsRefused s.second_call
      → find_row (has_id job.id) db ≡ some r
      → r.state ≡ running
      → IsHolder job r
      → (q : Row) × (find_row (has_id job.id) (run_claimed f engine handlers lease s job db b).table
          ≡ some q)
        × (q.state ≡ failed)
        × Stuck q
  unfolding run_claimed after_execute
  retry_half_done s job e db b r ran again n q x found st held =
      let (y, there, in_failed) = schedule_retry_half s job e db r n q x found st held in
      (y, rw ran (rw again there), in_failed, failed-Stuck y in_failed)
