-- ===== src/Store/Update.antt =====
-- internal/store/store.go: `UpdateJob` and `CancelJob`. Each reads the row in one statement and
-- writes it in another, with no transaction around them: `between` is what other clients of the
-- database do to the table in the meantime.
use go_task_q.Base.{
  ℕ, Bool, not, ◌&&◌, ◌||◌, Option, none, String, str_eq, if◌then◌else◌, is_some, ◌==◌,
}
use go_task_q.Time.{Time, truncate_micros}
use go_task_q.Models.{JobState, pending, running, completed, dead, state_eq, Job}
use go_task_q.Store.State.{can_transition}
use go_task_q.Store.Rows.{
  Row, Result, ok, err, invalid_transition, Answer, nullable_string, stored, NullText,
}
use go_task_q.Store.Table.{Db, exec_update}
use go_task_q.Store.Create.{has_id, text_is, get_job}

-- The WHERE clause of `UpdateJob`: no token, or the row's own token, or a pending row without a
-- token that is about to run.
unfoldable pub may_update : Job → Row → Bool
may_update job r =
    has_id job.id r
    && (str_eq job.lease_token ""
        || text_is job.lease_token r.lease_token
        || (state_eq r.state pending && state_eq job.state running && not (is_some r.lease_token)))

-- CASE WHEN $1 IN ('COMPLETED', 'DEAD', 'PENDING') THEN NULL ELSE $7 END.
abbrev pub kept_token : JobState → String → Option String
kept_token completed token = none
kept_token dead token = none
kept_token pending token = none
kept_token _ token = nullable_string token

unfoldable pub updated_row : Time → Job → Row → Row
updated_row now job r = record r {
  state = job.state;
  attempt = job.attempt;
  last_error = job.last_error;
  scheduled_at = stored job.scheduled_at;
  started_at = stored job.started_at;
  lease_expires_at = stored job.lease_expires_at;
  lease_token = kept_token job.state job.lease_token;
  completed_at = stored job.completed_at;
  updated_at = truncate_micros now;
  metadata = job.metadata;
  task = record (r.task) { metadata = job.task.metadata; retry_count = job.task.retry_count };
}

-- `if tag.RowsAffected() == 0 { return ErrInvalidTransition }`
abbrev pub some_affected : Result ℕ × Db → Result (Unit {0}) × Db
some_affected (ok n, db) = (if n == 0 then err invalid_transition else ok tt, db)
some_affected (err e, db) = (err e, db)

unfoldable pub write_update : Answer → Time → Job → Db → Result (Unit {0}) × Db
unfolding exec_update may_update updated_row
write_update a now job db = some_affected (exec_update a (may_update job) (updated_row now job) db)

-- What follows the read: an error is passed on, and the state machine is asked.
unfoldable pub check_state : JobState → Result Job → Result (Unit {0})
unfolding can_transition
check_state to (err e) = err e
check_state to (ok existing) =
    if can_transition existing.state to then ok tt else err invalid_transition

unfoldable pub check_transition : NullText → Bool → String → JobState → Db → Result (Unit {0})
unfolding get_job check_state
check_transition null_text answers id to db = check_state to (get_job null_text answers id db)

-- `if err != nil { return err }` before the second statement.
abbrev pub when_ok : Result (Unit {0}) → Db → Result (Unit {0}) × Db → Result (Unit {0}) × Db
when_ok (err e) db next = (err e, db)
when_ok (ok u) db next = next

unfoldable pub update_job :
    NullText → Bool → (Db → Db) → Answer → Time → Job → Db → Result (Unit {0}) × Db
unfolding check_transition write_update
update_job null_text answers between a now job db =
    when_ok (check_transition null_text answers job.id job.state db) (between db)
      (write_update a now job (between db))

unfoldable pub cancelled_row : Time → Row → Row
cancelled_row now r = record r { state = dead; updated_at = truncate_micros now }

-- The rows affected are not looked at.
abbrev pub ignore_affected : Result ℕ × Db → Result (Unit {0}) × Db
ignore_affected (ok n, db) = (ok tt, db)
ignore_affected (err e, db) = (err e, db)

unfoldable pub write_cancel : Answer → Time → String → Db → Result (Unit {0}) × Db
unfolding exec_update cancelled_row
write_cancel a now id db = ignore_affected (exec_update a (has_id id) (cancelled_row now) db)

unfoldable pub cancel_job :
    NullText → Bool → (Db → Db) → Answer → Time → String → Db → Result (Unit {0}) × Db
unfolding check_transition write_cancel
cancel_job null_text answers between a now id db =
    when_ok (check_transition null_text answers id dead db) (between db)
      (write_cancel a now id (between db))
