-- ===== src/Store/Leases.antt =====
-- internal/store/store.go: `RenewLease`, `RequeueExpiredRunning` and `ReleaseClaim`.
use go_task_q.Base.{
  ℕ, Bool, false, not, ◌&&◌, Option, none, some, String, str_eq, leb, any, take, if◌then◌else◌, ℤ,
  pos, pos_part, leb_ℤ, ltb_ℤ,
}
use go_task_q.Time.{Time, Duration, add, truncate_micros}
use go_task_q.Models.{pending, running, dead, state_eq, Job}
use go_task_q.Store.Rows.{Row, Result, ok, err, invalid_transition, Answer}
use go_task_q.Store.Table.{Db, exec_update, sort_rows}
use go_task_q.Store.Create.{has_id, text_is}
use go_task_q.Store.Update.{some_affected}

-- `id = $2 AND state = 'RUNNING' AND lease_token = $3`
unfoldable pub holds_lease : Job → Row → Bool
holds_lease job r =
    has_id job.id r && state_eq r.state running && text_is job.lease_token r.lease_token

unfoldable pub renewed_row : Time → Time → Duration → Row → Row
renewed_row db_now now lease r = record r {
  lease_expires_at = some (truncate_micros (add now lease));
  updated_at = truncate_micros db_now;
}

unfoldable pub renew_lease : Answer → Time → Time → Job → Duration → Db → Result (Unit {0}) × Db
unfolding exec_update holds_lease renewed_row
renew_lease a db_now now job lease db =
    if str_eq job.lease_token ""
    then (err invalid_transition, db)
    else some_affected (exec_update a (holds_lease job) (renewed_row db_now now lease) db)

unfoldable pub released_row : Time → String → Row → Row
released_row db_now reason r = record r {
  state = pending;
  last_error = reason;
  started_at = none;
  lease_expires_at = none;
  lease_token = none;
  updated_at = truncate_micros db_now;
}

unfoldable pub release_claim : Answer → Time → Job → String → Db → Result (Unit {0}) × Db
unfolding exec_update holds_lease released_row
release_claim a db_now job reason db =
    some_affected (exec_update a (holds_lease job) (released_row db_now reason) db)

abbrev pub has_passed : Time → Option Time → Bool
has_passed db_now none = false
has_passed db_now (some t) = leb t db_now

unfoldable pub expired : (String → Bool) → Time → Row → Bool
expired locked db_now r =
    state_eq r.state running && has_passed db_now r.lease_expires_at && not (locked r.id)

-- `task_max_retries > 0 AND attempt >= task_max_retries`
unfoldable pub exhausted : Row → Bool
exhausted r = ltb_ℤ (pos 0) r.task.max_retries && leb_ℤ r.task.max_retries r.attempt

unfoldable pub requeued_row : Time → Row → Row
unfolding exhausted
requeued_row db_now r = record r {
  state = if exhausted r then dead else pending;
  last_error = "job lease expired before completion";
  scheduled_at = if exhausted r then r.scheduled_at else some (truncate_micros db_now);
  started_at = none;
  lease_expires_at = none;
  lease_token = none;
  updated_at = truncate_micros db_now;
}

-- The rows that the inner SELECT locks: the longest expired ones, `limit` of them at most.
unfoldable pub selected : (String → Bool) → Time → ℕ → Db → Db
unfolding expired
selected locked db_now limit db =
    take limit (sort_rows (expired locked db_now) Row.lease_expires_at db)

abbrev pub is_selected : Db → Row → Bool
is_selected rows r = any (has_id r.id) rows

unfoldable pub requeue_expired_running : (String → Bool) → Time → Answer → ℤ → Db → Result ℕ × Db
unfolding exec_update selected requeued_row
requeue_expired_running locked db_now a limit db =
    if leb_ℤ limit (pos 0)
    then (ok 0, db)
    else exec_update a (is_selected (selected locked db_now (pos_part limit) db))
        (requeued_row db_now) db
