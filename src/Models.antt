-- ===== src/Models.antt =====
-- pkg/models/models.go: the job record and its lifecycle states.
use go_task_q.Base.{
  ◌≡◌, refl, ap, str_eq_iff, ℕ, Bool, true, false, List, Option, String, str_eq, ℤ,
}
use go_task_q.Time.{Time, Duration}

-- `JobState` is a string type: `other` holds every string that is not one of the five constants,
-- the empty string (an unset field) among them.
pub data JobState : Type 0 where
  pending running completed failed dead : JobState
  other : String → JobState

abbrev pub state_eq : JobState → JobState → Bool
state_eq pending pending = true
state_eq running running = true
state_eq completed completed = true
state_eq failed failed = true
state_eq dead dead = true
state_eq (other s) (other t) = str_eq s t
state_eq _ _ = false

-- `job.State == ""`
abbrev pub is_unset : JobState → Bool
is_unset (other s) = str_eq s ""
is_unset _ = false

pub state_eq_refl : (s : JobState) → state_eq s s ≡ true
state_eq_refl (other s) = (str_eq_iff s s).1 refl
state_eq_refl pending = refl
state_eq_refl running = refl
state_eq_refl completed = refl
state_eq_refl failed = refl
state_eq_refl dead = refl

pub state_eq_sound : (s t : JobState) → state_eq s t ≡ true → s ≡ t
state_eq_sound (other s) (other t) h = ap other ((str_eq_iff s t).0 h)
state_eq_sound pending pending h = refl
state_eq_sound running running h = refl
state_eq_sound completed completed h = refl
state_eq_sound failed failed h = refl
state_eq_sound dead dead h = refl
state_eq_sound _ _ h = cc

-- A `map[string]string`, a key at most once.
abbrev pub StringMap : Type 0
StringMap = List (String × String)

pub record Task : Type 0 where
  pub id : String
  pub name : String
  pub payload : List ℕ
  pub retry_count : ℤ
  pub max_retries : ℤ
  pub timeout : Duration
  pub cron_expression : String
  pub queue : String
  pub metadata : StringMap

-- A nil pointer to a time is `none`.
pub record Job : Type 0 where
  pub id : String
  pub idempotency_key : String
  pub task : Task
  pub state : JobState
  pub attempt : ℤ
  pub scheduled_at : Option Time
  pub started_at : Option Time
  pub lease_expires_at : Option Time
  pub lease_token : String
  pub completed_at : Option Time
  pub last_error : String
  pub metadata : StringMap
  pub created_at : Time
  pub updated_at : Time
