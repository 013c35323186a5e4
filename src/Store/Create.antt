-- ===== src/Store/Create.antt =====
-- internal/store/store.go: `CreateJob`, `GetJob` and `GetJobByIdempotencyKey`.
use go_task_q.Base.{
  Bool, false, Option, none, some, [], ◌∷◌, ◌++◌, String, str_eq, any, if◌then◌else◌,
}
use go_task_q.Time.{Time, is_zero, truncate_micros}
use go_task_q.Models.{Job}
use go_task_q.Store.Rows.{
  Row, Result, ok, err, not_found, duplicate_key, other_error, Answer, nullable_string, stored,
  NullText, scan_job,
}
use go_task_q.Store.Table.{Db, find_row, deliver}

-- The parameters of the INSERT, as the columns keep them.
unfoldable pub new_row : Time → Job → Row
new_row now job = record {
  id = job.id;
  idempotency_key = nullable_string job.idempotency_key;
  task = job.task;
  state = job.state;
  attempt = job.attempt;
  last_error = job.last_error;
  scheduled_at = stored job.scheduled_at;
  started_at = stored job.started_at;
  lease_expires_at = stored job.lease_expires_at;
  lease_token = nullable_string job.lease_token;
  completed_at = stored job.completed_at;
  created_at = truncate_micros (if is_zero job.created_at then now else job.created_at);
  updated_at = truncate_micros now;
  metadata = job.metadata;
}

abbrev pub has_id : String → Row → Bool
has_id id r = str_eq r.id id

-- `idempotency_key = $1`, which no NULL satisfies.
abbrev pub text_is : String → Option String → Bool
text_is s none = false
text_is s (some t) = str_eq t s

abbrev pub has_key : String → Row → Bool
has_key key r = text_is key r.idempotency_key

abbrev pub key_taken : Option String → Db → Bool
key_taken none db = false
key_taken (some key) db = any (has_key key) db

-- INSERT under the primary key and under the unique index on the keys that are not NULL.
unfoldable pub insert_row : Row → Db → Result (Unit {0}) × Db
insert_row r db =
    if any (has_id r.id) db
    then (err other_error, db)
    else if key_taken r.idempotency_key db
    then (err duplicate_key, db)
    else (ok tt, db ++ r ∷ [])

unfoldable pub create_job : Answer → Time → Job → Db → Result (Unit {0}) × Db
unfolding insert_row new_row deliver
create_job a now job db = deliver a (insert_row (new_row now job) db) db

-- `Pool.QueryRow` and `scanJob`; no row is `pgx.ErrNoRows`.
abbrev pub scan_found : NullText → Option Row → Result Job
scan_found null_text none = err not_found
scan_found null_text (some r) = scan_job null_text r

unfoldable pub get_job : NullText → Bool → String → Db → Result Job
get_job null_text answers id db =
    if answers then scan_found null_text (find_row (has_id id) db) else err other_error

unfoldable pub get_job_by_idempotency_key : NullText → Bool → String → Db → Result Job
get_job_by_idempotency_key null_text answers key db =
    if answers then scan_found null_text (find_row (has_key key) db) else err other_error
