-- ===== src/Store/Rows.antt =====
-- internal/store/errors.go and the rows of the table of migrations/001_create_jobs.sql: results,
-- what the connection answers, and `scanJob`.
use go_task_q.Base.{◌≡◌, Option, none, some, String, str_eq, if◌then◌else◌, ℤ}
use go_task_q.Time.{Time, truncate_micros}
use go_task_q.Models.{JobState, StringMap, Task, Job}

-- The three sentinel errors of errors.go; `other` is every error that is none of these.
pub data StoreError : Type 0 where
  not_found invalid_transition duplicate_key other_error : StoreError

pub data Result {ℓ} (A : Type ℓ) : Type ℓ where
  ok : A → Result A
  err : StoreError → Result A

infixl 5 ◌>>=◌
abbrev pub ◌>>=◌ {ℓ κ} : {A : Type ℓ} {B : Type κ} → Result A → (A → Result B) → Result B
ok a >>= f = f a
err e >>= f = err e

-- How the connection answers a statement: it is carried out; or it is not and an error comes back;
-- or it is carried out and the answer is lost, so an error comes back all the same.
pub data Answer : Type 0 where
  done refused lost : Answer

-- The columns that the code writes a NULL to are options.
pub record Row : Type 0 where
  pub id : String
  pub idempotency_key : Option String
  pub task : Task
  pub state : JobState
  pub attempt : ℤ
  pub last_error : String
  pub scheduled_at : Option Time
  pub started_at : Option Time
  pub lease_expires_at : Option Time
  pub lease_token : Option String
  pub completed_at : Option Time
  pub created_at : Time
  pub updated_at : Time
  pub metadata : StringMap

abbrev pub nullable_string : String → Option String
nullable_string value = if str_eq value "" then none else some value

-- A timestamp column keeps whole microseconds.
abbrev pub stored : Option Time → Option Time
stored none = none
stored (some t) = some (truncate_micros t)

-- What the driver makes of a NULL text that is scanned into a Go string: a string, or an error.
abbrev pub NullText : Type 0
NullText = Option String

abbrev pub scan_text : NullText → Option String → Result String
scan_text none none = err other_error
scan_text (some s) none = ok s
scan_text null_text (some value) = ok value

unfoldable pub scan_job : NullText → Row → Result Job
scan_job null_text r = do
  key ← scan_text null_text r.idempotency_key
  token ← scan_text null_text r.lease_token
  ok (record {
    id = r.id;
    idempotency_key = key;
    task = r.task;
    state = r.state;
    attempt = r.attempt;
    scheduled_at = r.scheduled_at;
    started_at = r.started_at;
    lease_expires_at = r.lease_expires_at;
    lease_token = token;
    completed_at = r.completed_at;
    last_error = r.last_error;
    metadata = r.metadata;
    created_at = r.created_at;
    updated_at = r.updated_at;
  })

pub eq_of_ok {ℓ} : {A : Type ℓ} {a b : A} → ok a ≡ ok b → a ≡ b
eq_of_ok h = cc
