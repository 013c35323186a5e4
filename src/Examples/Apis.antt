-- ===== src/Examples/Apis.antt =====
-- internal/api/handler.go: requests against a table of one job, and against an empty one.
use go_task_q.Store.Rows.{done}
use go_task_q.Store.Table.{find_row}
use go_task_q.Store.Create.{has_id}
use go_task_q.Store.Listing.{start, malformed}
use go_task_q.Examples.Data.{a_row}
use go_task_q.Api.{Response, cancel_job_request, list_jobs_page, bad_request, internal_error}
use go_task_q.Api.Cancelling.{status_for, status_again, cancel_job_request-twice}
use go_task_q.Models.{other}
use go_task_q.Base.{none, refl, codes, [], List, ◌∷◌, ◌≡◌, Bool, true, String, some}

cancel_job_request-twice_example :
    ((cancel_job_request none true (λ d. d) done 7000 "a" (a_row ∷ [])).0.status
      ≡ status_for none (find_row (has_id "a") (a_row ∷ [])))
    × ((cancel_job_request none true
          (λ d. d)
          done
          7000
          "a"
          (cancel_job_request none true (λ d. d) done 7000 "a" (a_row ∷ [])).1).0.status
        ≡ status_again none (find_row (has_id "a") (a_row ∷ [])))
cancel_job_request-twice_example = cancel_job_request-twice none 7000 "a" (a_row ∷ [])

-- A limit that is no number, a state that is none, and a cursor that cannot be decoded.
abbrev answers_of : (String → String → Bool) → List Response
answers_of before =
    list_jobs_page before (some "") true
      (record { state = other ""; limit = codes "x"; cursor = start }) []
    ∷ list_jobs_page before (some "") true
        (record { state = other "DONE"; limit = []; cursor = start }) []
    ∷ list_jobs_page before (some "") true
        (record { state = other ""; limit = []; cursor = malformed }) []
    ∷ []

answers_lem :
    (before : String → String → Bool)
    → answers_of before ≡ bad_request ∷ bad_request ∷ internal_error ∷ []
unfolding list_jobs_page go_task_q.Store.Listing.list_jobs
answers_lem before = refl
