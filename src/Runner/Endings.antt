-- ===== src/Runner/Endings.antt =====
-- cmd/server/main.go: where a run leaves its job when the store answers and nobody interferes.
use go_task_q.Runner.Quiet.{
  readable-nullable_string, readable-holder, IsScannable, IsQuiet, update_quiet, IsHolder,
  may_update-holder,
}
use go_task_q.Retry
use go_task_q.Retry.{Float}
use go_task_q.Runner.{
  execute, second_update, completed_job, after_execute, run_claimed, rescheduled_job, failed_job,
  dead_job, should_retry, schedule_retry, RunError, dead_letter, Surroundings, Handlers,
  call_update,
}
use go_task_q.Store.Table.{Db, find_row}
use go_task_q.Base.{none, Option, refl, inr, ◌∙◌, ap, inl, Bool-cases, false, true, some, ◌≡◌, Bool}
use go_task_q.Store.Rows.{err, Result, stored, ok, Row}
use go_task_q.Models.{dead, running, completed, pending, Job}
use go_task_q.Store.Create.{has_id}
use go_task_q.Store.State.{can_transition}
use go_task_q.Store.Update.{updated_row}
use go_task_q.Time.{add, Duration}
use go_task_q.Breaker.{Breaker}

module _ (f : Float) (engine : Retry.Config f) (handlers : Handlers) (lease : Duration) where
  -- The row after a failed run.
  abbrev pub Rescheduled : Surroundings f → Job → Bool → Row → Type 0
  Rescheduled s job true r =
      (r.state ≡ pending)
      × (r.scheduled_at
          ≡ stored (some (add s.stamped_at (Retry.delay f engine job.attempt s.random))))
  Rescheduled s job false r = r.state ≡ dead

  -- The row after a run, by what the handler has returned.
  abbrev pub Ended : Surroundings f → Job → Option RunError → Row → Type 0
  Ended s job none r = (r.state ≡ completed) × (r.completed_at ≡ stored (some s.stamped_at))
  Ended s job (some e) r =
      (r.last_error ≡ e.text) × Rescheduled s job (should_retry f engine handlers lease job e) r

  pub second_update-ok :
      (s : Surroundings f) (job : Job) (o : Result (Unit {0}) × Db)
      → o.0 ≡ ok tt
      → second_update f engine handlers lease s job o
        ≡ (call_update s.null_text s.second_call job o.1).1
  second_update-ok s job (ok u, db) h = refl
  second_update-ok s job (err e, db) h = cc

  schedule_retry_quiet :
      (s : Surroundings f) (job : Job) (e : RunError) (db : Db) (r : Row)
      → IsScannable s.null_text job r
      → IsQuiet s.first_call
      → IsQuiet s.second_call
      → find_row (has_id job.id) db ≡ some r
      → r.state ≡ running
      → IsHolder job r
      → (q : Row) × (find_row (has_id job.id) (schedule_retry f engine handlers lease s job e db)
          ≡ some q)
        × (q.lease_token ≡ none)
        × (q.last_error ≡ e.text)
        × Rescheduled s job true q
  unfolding schedule_retry failed_job rescheduled_job updated_row can_transition
  schedule_retry_quiet s job e db r n q q' found st held =
      let failing = failed_job e job in
      let next =
        rescheduled_job (add s.stamped_at (Retry.delay f engine job.attempt s.random)) failing in
      let (went, there) =
        update_quiet s.null_text s.first_call failing db r
          (readable-holder s.null_text job r n held) q found (rw st refl)
          (may_update-holder failing db r found (inl held)) in
      let half = updated_row s.first_call.now failing r in
      let (_, after) =
        update_quiet s.null_text s.second_call next
          (call_update s.null_text s.first_call failing db).1 half
          (readable-nullable_string s.null_text job r n) q' there refl
          (may_update-holder next _ half there (inr refl)) in
      (
        updated_row s.second_call.now next half,
        ap (find_row (has_id job.id))
              (second_update-ok s next (call_update s.null_text s.first_call failing db) went)
            ∙ after,
        refl,
        refl,
        (refl, refl),
      )

  dead_letter_quiet :
      (s : Surroundings f) (job : Job) (e : RunError) (db : Db) (r : Row)
      → IsScannable s.null_text job r
      → IsQuiet s.first_call
      → find_row (has_id job.id) db ≡ some r
      → r.state ≡ running
      → IsHolder job r
      → (q : Row) × (find_row (has_id job.id) (dead_letter f engine handlers lease s job e db)
          ≡ some q)
        × (q.lease_token ≡ none)
        × (q.last_error ≡ e.text)
        × (q.state ≡ dead)
  unfolding dead_letter dead_job updated_row can_transition
  dead_letter_quiet s job e db r n q found st held =
      let buried = dead_job e job in
      let (_, after) =
        update_quiet s.null_text s.first_call buried db r (readable-holder s.null_text job r n held)
          q found (rw st refl) (may_update-holder buried db r found (inl held)) in
      (updated_row s.first_call.now buried r, after, refl, refl, refl)

  after_execute_quiet :
      (s : Surroundings f) (job : Job) (result : Option RunError) (db : Db) (b : Breaker) (r : Row)
      → IsScannable s.null_text job r
      → IsQuiet s.first_call
      → IsQuiet s.second_call
      → find_row (has_id job.id) db ≡ some r
      → r.state ≡ running
      → IsHolder job r
      → (q : Row) × (find_row
            (has_id job.id)
            (after_execute f engine handlers lease s job result db b).table
          ≡ some q)
        × (q.lease_token ≡ none)
        × Ended s job result q
  unfolding after_execute completed_job updated_row can_transition
  after_execute_quiet s job none db b r n q q' found st held =
      let finished = completed_job s.stamped_at job in
      let (_, after) =
        update_quiet s.null_text s.first_call finished db r
          (readable-holder s.null_text job r n held) q found (rw st refl)
          (may_update-holder finished db r found (inl held)) in
      (updated_row s.first_call.now finished r, after, refl, (refl, refl))
  after_execute_quiet s job (some e) db b r n q q' found st held =
      elim (Bool-cases (should_retry f engine handlers lease job e)) [
        | inl t ↦
            let (x, at, free, text, put) = schedule_retry_quiet s job e db r n q q' found st held in
            rw t (x, at, free, (text, put))
        | inr d ↦
            let (x, at, free, text, put) = dead_letter_quiet s job e db r n q found st held in
            rw d (x, at, free, (text, put))
      ]

  -- Nobody interferes with a run, its calls of the store are answered, and the job's row can be
  -- read: either the driver scans NULL texts, or, with one that refuses them, the row has an
  -- idempotency key and the job's token is not empty. If the job's row is running with the job's
  -- own token, then after the handler
  -- the row carries no token, and it is COMPLETED if the handler succeeded, with the time of its
  -- end; if the handler failed (or is not registered) its error is the row's last error, and the
  -- row is PENDING again, due after the policy's delay, if the policy allows another attempt, and
  -- DEAD if not.
  pub run_claimed_ending :
      (s : Surroundings f) (job : Job) (db : Db) (b : Breaker) (r : Row)
      → IsScannable s.null_text job r
      → IsQuiet s.first_call
      → IsQuiet s.second_call
      → find_row (has_id job.id) db ≡ some r
      → r.state ≡ running
      → IsHolder job r
      → (q : Row) × (find_row (has_id job.id) (run_claimed f engine handlers lease s job db b).table
          ≡ some q)
        × (q.lease_token ≡ none)
        × Ended s job (execute handlers job) q
  unfolding run_claimed
  run_claimed_ending s job db b r n q q' found st held =
      after_execute_quiet s job (execute handlers job) db (s.other_workers b) r n q q' found st held
