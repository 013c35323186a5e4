-- ===== src/Examples/Runs.antt =====
-- cmd/server/main.go: `jobWorker` with a handler that always fails, and one that never does.
use go_task_q.Runner.{
  fine, execute, Handlers, StoreCall, RunError, should_retry, Surroundings, run_claimed,
}
use go_task_q.Breaker.{closed, Breaker}
use go_task_q.Examples.Retries.{an_engine, whole}
use go_task_q.Runner.Endings.{run_claimed_ending, Ended}
use go_task_q.Runner.Quiet.{IsQuiet}
use go_task_q.Store.Table.{find_row}
use go_task_q.Store.Rows.{done, refused, Row}
use go_task_q.Base.{◌≢◌, none, ◌≡◌, [], ◌∷◌, str_eq, pos, true, some, false, if◌then◌else◌, refl}
use go_task_q.Examples.Data.{differ, a_row, a_job, taken_row}
use go_task_q.Store.Create.{has_id}
use go_task_q.Models.{failed}
use go_task_q.Runner.HalfDone.{retry_half_done, Stuck}
use go_task_q.Runner.Stale.{stale_run_fenced}

abbrev trouble : RunError
trouble = record { text = "smtp down"; permanent = false }

abbrev handlers : Handlers
handlers name = if str_eq name "mail" then some (λ job. some trouble) else none

abbrev quiet_call : StoreCall
quiet_call = record {
  before = λ db. db;
  answers = true;
  between = λ db. db;
  answer = done;
  now = 9000;
}

abbrev around : StoreCall → StoreCall → Surroundings whole
around first_call second_call = record {
  null_text = none;
  checked_at = 8000;
  woken = true;
  asked_at = 8000;
  before_release = λ db. db;
  release_answer = done;
  released_at = 8000;
  locked = true;
  claimed_at = 8000;
  token = some "fresh";
  claim_call = quiet_call;
  other_workers = λ b. b;
  ended_at = 9000;
  stamped_at = 9000;
  random = 0;
  first_call = first_call;
  second_call = second_call;
}

quiet_call-IsQuiet : IsQuiet quiet_call
quiet_call-IsQuiet = record {
  alone_before = λ db. refl;
  alone_between = λ db. refl;
  answered = refl;
  carried_out = refl;
}

a_row_found : find_row (has_id "a") (a_row ∷ []) ≡ some a_row
unfolding find_row
a_row_found = refl

abbrev quiet : Surroundings whole
quiet = around quiet_call quiet_call

abbrev fresh_breaker : Breaker
fresh_breaker = record {
  cfg = record {
    failure_threshold = pos 5;
    success_threshold = pos 2;
    open_timeout = pos 60;
    half_open_requests = pos 1;
  };
  state = closed;
  failures = 0;
  successes = 0;
  opened_at = 0;
}

run_claimed_ending_example :
    (q : Row) × (find_row
        (has_id "a")
        (run_claimed whole an_engine handlers
          (pos 3000)
          quiet
          a_job
          (a_row ∷ [])
          fresh_breaker).table
      ≡ some q)
    × (q.lease_token ≡ none)
    × Ended whole an_engine handlers (pos 3000) quiet a_job (execute handlers a_job) q
run_claimed_ending_example =
    run_claimed_ending whole an_engine handlers (pos 3000) quiet a_job (a_row ∷ []) fresh_breaker
      a_row refl quiet_call-IsQuiet quiet_call-IsQuiet a_row_found refl refl

-- The lease is taken over before the first write after the handler.
abbrev late_call : StoreCall
late_call = record quiet_call { before = λ db. taken_row ∷ [] }

stale_run_fenced_example :
    ((run_claimed whole an_engine handlers
        (pos 3000)
        (around late_call quiet_call)
        a_job
        (a_row ∷ [])
        fresh_breaker).table
      ≡ taken_row ∷ [])
    × ((run_claimed whole an_engine handlers
          (pos 3000)
          (around late_call quiet_call)
          a_job
          (a_row ∷ [])
          fresh_breaker).returned
        ≢ fine)
stale_run_fenced_example =
    stale_run_fenced whole an_engine handlers (pos 3000) (around late_call quiet_call) a_job
      (a_row ∷ []) fresh_breaker taken_row (tt, tt) (unfold find_row in refl)
      (record {
        claims_one = differ "mine" "" refl;
        holder = "other";
        held = refl;
        other_holder = differ "other" "mine" refl;
      })

abbrev refused_call : StoreCall
refused_call = record quiet_call { answer = refused }

may_try_again : should_retry whole an_engine handlers (pos 3000) a_job trouble ≡ true
unfolding should_retry
may_try_again = refl

retry_half_done_example :
    (q : Row) × (find_row
        (has_id "a")
        (run_claimed whole an_engine handlers
          (pos 3000)
          (around quiet_call refused_call)
          a_job
          (a_row ∷ [])
          fresh_breaker).table
      ≡ some q)
    × (q.state ≡ failed)
    × Stuck q
retry_half_done_example =
    retry_half_done whole an_engine handlers (pos 3000) (around quiet_call refused_call) a_job
      trouble (a_row ∷ []) fresh_breaker a_row (unfold execute in refl) may_try_again refl
      quiet_call-IsQuiet
      (record { alone_before = λ db. refl; alone_between = λ db. refl; not_carried_out = refl })
      a_row_found refl refl
