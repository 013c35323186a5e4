-- ===== src/Api.antt =====
-- internal/api/handler.go: the handlers of the HTTP requests, over the service and the store. A
-- request is what gin has read of it; counters and logs are left out.
pub mod Cancelling
use go_task_q.Models.{
  JobState, pending, running, completed, failed, dead, other, is_unset, StringMap, Task, Job,
}
use go_task_q.Time.{Time}
use go_task_q.Store.Rows.{
  NullText, Answer, Result, ok, err, StoreError, not_found, invalid_transition,
}
use go_task_q.Store.Table.{Db}
use go_task_q.Store.Create.{get_job, get_job_by_idempotency_key}
use go_task_q.Store.Listing.{Cursor, Page, ListFilter, list_jobs}
use go_task_q.Service.{Surroundings, Outcome, enqueue, cancel}
use go_task_q.Base.{
  ltb_ℤ, ◌∷◌, some, true, [], ℤ, if◌then◌else◌, none, str_eq, Bytes, List, Option, pos, Bool, ℕ,
  String,
}
use go_task_q.Base.{atoi}

pub data Body : Type 0 where
  created : String → Body
  job_found : Job → Body
  page : Page → Body
  cancelled : Body
  error_code : String → Body

pub record Response : Type 0 where
  pub status : ℕ
  pub body : Body

abbrev pub respond_error : ℕ → String → Response
respond_error status code = record { status = status; body = error_code code }

abbrev pub internal_error : Response
internal_error = respond_error 500 "internal_error"

abbrev pub bad_request : Response
bad_request = respond_error 400 "invalid_request"

pub record EnqueueRequest : Type 0 where
  pub idempotency_key : String
  pub task : Task
  pub scheduled_at : Option Time
  pub metadata : StringMap

-- The job that is handed to the service; the fields that are not named are zero.
abbrev pub requested : EnqueueRequest → Job
requested request = record {
  id = "";
  idempotency_key = request.idempotency_key;
  task = request.task;
  state = other "";
  attempt = pos 0;
  scheduled_at = request.scheduled_at;
  started_at = none;
  lease_expires_at = none;
  lease_token = "";
  completed_at = none;
  last_error = "";
  metadata = request.metadata;
  created_at = 0;
  updated_at = 0;
}

abbrev pub enqueued : Result String → Response
enqueued (ok id) = record { status = 201; body = created id }
enqueued (err e) = internal_error

-- The response, the table, and the jobs that are published.
abbrev pub Reply : Type 0
Reply = Response × Db × List Job

-- `none` is a body that cannot be read.
unfoldable pub enqueue_job : Surroundings → Option EnqueueRequest → Db → Reply
enqueue_job s none db = (bad_request, db, [])
enqueue_job s (some request) db =
    if str_eq request.task.name ""
    then (bad_request, db, [])
    else let o = enqueue s (requested request) db in (enqueued o.result, o.table, o.published)

abbrev pub found : Result Job → Response
found (ok job) = record { status = 200; body = job_found job }
found (err not_found) = respond_error 404 "not_found"
found (err e) = internal_error

unfoldable pub get_job_status : NullText → Bool → String → Db → Response
get_job_status null_text answers id db = found (get_job null_text answers id db)

unfoldable pub get_job_by_key : NullText → Bool → String → Db → Response
get_job_by_key null_text answers key db =
    if str_eq key ""
    then bad_request
    else found (get_job_by_idempotency_key null_text answers key db)

-- A query that is missing is empty.
pub record ListRequest : Type 0 where
  pub state : JobState
  pub limit : Bytes
  pub cursor : Cursor

-- `none` is a limit that is refused.
abbrev pub checked_limit : Option ℤ → Option ℤ
checked_limit none = none
checked_limit (some n) = if ltb_ℤ n (pos 0) then none else some n

abbrev pub limit_of : Bytes → Option ℤ
limit_of [] = some (pos 0)
limit_of (c ∷ s) = checked_limit (atoi (c ∷ s))

abbrev pub known_state : JobState → Bool
known_state (other s) = str_eq s ""
known_state _ = true

abbrev pub listed : Result Page → Response
listed (ok p) = record { status = 200; body = page p }
listed (err e) = internal_error

module _ (text_before : String → String → Bool) where
  abbrev pub list_limited : NullText → Bool → ListRequest → Option ℤ → Db → Response
  list_limited null_text answers request none db = bad_request
  list_limited null_text answers request (some n) db =
      if known_state request.state
      then listed (
          list_jobs text_before null_text answers
            (record { state = request.state; limit = n; cursor = request.cursor }) db)
      else bad_request

  unfoldable pub list_jobs_page : NullText → Bool → ListRequest → Db → Response
  list_jobs_page null_text answers request db =
      list_limited null_text answers request (limit_of request.limit) db

abbrev pub after_cancel : Result (Unit {0}) → Response
after_cancel (ok u) = record { status = 200; body = cancelled }
after_cancel (err not_found) = respond_error 404 "not_found"
after_cancel (err invalid_transition) = respond_error 409 "invalid_state"
after_cancel (err e) = internal_error

unfoldable pub cancel_job_request :
    NullText → Bool → (Db → Db) → Answer → Time → String → Db → Response × Db
cancel_job_request null_text answers between a now id db =
    let (result, table) = cancel null_text answers between a now id db in
    (after_cancel result, table)
