-- ===== src/Examples/Services.antt =====
-- internal/service/job_service.go at a concrete request.
use go_task_q.Service.{fails, returns, enqueue, Surroundings}
use go_task_q.Models.{other, Job}
use go_task_q.Service.Idempotency.{enqueue_again}
use go_task_q.Base.{if◌then◌else◌, none, length, refl, ◌∷◌, true, ◌≡◌, some, []}
use go_task_q.Examples.Data.{differ, a_row, a_job}
use go_task_q.Store.Rows.{other_error, Row, scan_job, done, ok}
use go_task_q.Store.Create.{has_key, create_job, get_job_by_idempotency_key}
use go_task_q.Store.Table.{find_row}
use go_task_q.Service.Published.{enqueue-AreStored, AreStored}
use go_task_q.Store.Readable.{readable}

abbrev request : Job
request = record a_job { id = ""; state = other ""; lease_token = "" }

-- Another client has inserted a job with the same key between the look-up and the INSERT.
abbrev racing : Surroundings
racing = record {
  null_text = some "";
  first_answers = true;
  before_create = λ db. a_row ∷ [];
  create_answer = done;
  before_lookup = λ db. db;
  second_answers = true;
  random_id = some "d";
  now = 7000;
  store_now = 7000;
}

-- A driver that refuses NULL texts.
abbrev strict : Surroundings
strict = record racing { null_text = none }

racing_lem : (enqueue racing request []).result ≡ ok "a"
unfolding enqueue get_job_by_idempotency_key find_row create_job scan_job
racing_lem = refl

enqueue_again_example :
    (r : Row) × (find_row (has_key "key") (enqueue racing request []).table ≡ some r)
    × (r.id ≡ "a")
    × (enqueue strict request (enqueue racing request []).table ≡ (
        if readable none r
        then returns "a" (enqueue racing request []).table
        else fails other_error (enqueue racing request []).table))
enqueue_again_example =
    enqueue_again racing strict request request [] "a" (differ "key" "" refl) refl racing_lem

-- Nobody interferes.
abbrev calm : Surroundings
calm = record racing { before_create = λ db. db }

enqueue-AreStored_example : AreStored calm (enqueue calm request [])
enqueue-AreStored_example = enqueue-AreStored calm request []

-- The new job is published.
one_published : length (enqueue calm request []).published ≡ 1
unfolding enqueue get_job_by_idempotency_key find_row create_job
one_published = refl
