-- ===== src/Examples/Reconcilers.antt =====
-- internal/reconciler/reconciler.go: passes over a table with two jobs that are due.
use go_task_q.Reconciler.Lifecycle.{
  Event, start, stop, pass_ends, timer_fires, exits, idle, run, passing,
}
use go_task_q.Reconciler.Lifecycle.Single.{Inv, run-Inv}
use go_task_q.Reconciler.{new, claim_at, Recovery, Config, Turn, reconcile, claim_loop}
use mathlib.Core.List.{Memᴰ}
use go_task_q.Models.{pending, Job}
use go_task_q.Base.{[], ◌∷◌, List, refl, ◌+ℤ◌, none, ◌≡◌, true, some, false, pos, Bool, length}
use go_task_q.Reconciler.Passes.{reconcile-AreApart, AreApart}
use go_task_q.Store.Claim.{claimable, claimed_row, claim_row, claim_next_job}
use go_task_q.Store.Rows.{ok, scan_job, done, Row}
use go_task_q.Examples.Data.{two_rows-IsUnique, two_rows, a_job}
use go_task_q.Store.Table.{sort_rows, update_rows, deliver, first_row, find_row}
use go_task_q.Store.Create.{create_job, has_id}
use go_task_q.Store.Leases.{requeue_expired_running}
use go_task_q.Reconciler.Rejected.{rejected_attempt}
use go_task_q.Reconciler.Enqueues.{create_job-IsTame}

abbrev turn : Bool → Turn
turn takes = record {
  ctx_done = false;
  before_claim = λ db. db;
  locked = λ id. false;
  db_now = 8000;
  now = 8000;
  token = some "fresh";
  claim_answer = done;
  takes = λ job. takes;
  before_release = λ db. db;
  release_answer = done;
  released_at = 8000;
}

abbrev settings : Config
settings = record {
  interval = pos 60;
  idle_interval = pos 60;
  batch_size = pos 5;
  running_lease = pos 3000;
}

abbrev recovery : Recovery
recovery = record { before = λ db. db; locked = λ id. false; db_now = 8000; answer = done }

-- A third job is enqueued before the first claim.
abbrev third_job : Job
third_job = record a_job { id = "d"; idempotency_key = ""; state = pending; lease_token = "" }

abbrev enqueued_turn : Turn
enqueued_turn = record (turn true) { before_claim = λ db. (create_job done 8000 third_job db).1 }

reconcile-AreApart_example :
    AreApart (reconcile (some "") settings recovery (λ i. enqueued_turn) two_rows).submitted
reconcile-AreApart_example =
    reconcile-AreApart (some "") settings recovery (λ i. enqueued_turn) two_rows
      (λ i. create_job-IsTame done 8000 third_job)

-- Both jobs are handed out.
both_handed_out :
    length (reconcile (some "") settings recovery (λ i. turn true) two_rows).submitted ≡ 2
unfolding reconcile claim_loop claim_next_job claim_row first_row claimed_row deliver scan_job
    claimable update_rows requeue_expired_running sort_rows
both_handed_out = refl

abbrev first_due : Job
first_due = record a_job {
  id = "b";
  idempotency_key = "";
  attempt = pos 1;
  scheduled_at = some 1000;
  started_at = some 8000;
  lease_expires_at = some 11000;
  lease_token = "fresh";
  updated_at = 8000;
}

first_due_claimed : (claim_at (some "") (pos 3000) (turn false) two_rows).0 ≡ ok first_due
unfolding claim_next_job claim_row first_row claimed_row deliver scan_job claimable
first_due_claimed = refl

rejected_attempt_example :
    (r : Row) × (q : Row) × Memᴰ r two_rows
    × (find_row
          (has_id "b")
          (claim_loop (some "") (pos 3000) (λ i. turn false) false 4 0 two_rows).table
        ≡ some q)
    × (r.id ≡ "b")
    × (r.state ≡ pending)
    × (q.state ≡ pending)
    × (q.lease_token ≡ none)
    × (q.attempt ≡ r.attempt +ℤ pos 1)
rejected_attempt_example =
    rejected_attempt (some "") (pos 3000) (λ i. turn false) false 3 two_rows first_due
      two_rows-IsUnique.ids refl first_due_claimed refl (λ x. refl) refl

-- `Stop` in the middle of a pass, and a `Start` before the loop has ended.
abbrev restarted : List Event
restarted =
    start false
    ∷ pass_ends 0 true
    ∷ timer_fires 0
    ∷ stop
    ∷ start false
    ∷ pass_ends 1 false
    ∷ exits 1
    ∷ []

run-Inv_example : Inv (run (new settings) restarted idle)
run-Inv_example = run-Inv settings restarted

one_loop_left :
    (run (new settings) restarted idle).loops ≡ record { ctx_done = false; phase = passing } ∷ []
unfolding run
one_loop_left = refl
