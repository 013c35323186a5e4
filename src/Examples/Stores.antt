-- ===== src/Examples/Stores.antt =====
-- internal/store/store.go at concrete tables.
use go_task_q.Base.{
  inr, ◌↔◌, ◌≢◌, inl, refl, ◌≡◌, [], ◌∷◌, pos, none, false, true, some, String, List,
}
use go_task_q.Store.Rows.{other_error, err, lost, ok, scan_job, done, Row, Result}
use go_task_q.Store.Exclusive.{claim_exclusive}
use go_task_q.Store.Unique.{IsUnique}
use go_task_q.Store.Claim.{claimable, claimed_row, claim_row, claim_next_job}
use go_task_q.Store.Fencing.{stale_lease-Fenced, Fenced}
use go_task_q.Store.Update.{cancel_job, update_job}
use go_task_q.Examples.Data.{differ, two_rows-IsUnique, taken_row, two_rows, a_job, a_row}
use go_task_q.Time.{truncate_micros, Time}
use go_task_q.Models.{dead, running, completed, Job}
use go_task_q.Store.History.{
  terminal_stays, cancels, releases, requeues, updates, renews, claims, run_lifecycle, Traces,
  creates, Op,
}
use go_task_q.Store.Table.{update_rows, find_row, deliver, Db, first_row}
use go_task_q.Store.Leases.{release_claim, renew_lease}
use go_task_q.Store.History.{run}
use mathlib.Core.List.{Memᴰ}
use go_task_q.Store.Create.{has_id, get_job, create_job}
use go_task_q.Store.State.{can_transition_iff, ◌⟶◌, can_transition}
use go_task_q.Store.RoundTrip.{get_job-create_job_null, get_job-create_job, as_stored}
use go_task_q.Store.Races.{cancel_job_race}
use go_task_q.Store.Claims.{claim_next_job-ClaimsOne, ClaimsOne}

abbrev some_ops : List Op
some_ops =
    creates done 7000 a_job
    ∷ claims (λ id. false) 8000 8000 (pos 3000) (some "other") done
    ∷ renews done 8500 8500 a_job (pos 5000)
    ∷ updates true lost 9000 (record a_job { state = completed })
    ∷ requeues (λ id. false) 20000 done (pos 10)
    ∷ releases done 21000 a_job "shutdown"
    ∷ cancels true done 22000 "c"
    ∷ []

run_lifecycle_example :
    IsUnique (run (some "") some_ops two_rows) × Traces two_rows (run (some "") some_ops two_rows)
run_lifecycle_example = run_lifecycle (some "") some_ops two_rows two_rows-IsUnique

abbrev done_row : Row
done_row = record a_row { state = completed; lease_token = none }

terminal_stays_example :
    (s : Row) × Memᴰ s (run (some "") some_ops (done_row ∷ []))
    × (s.id ≡ done_row.id)
    × (s.state ≡ done_row.state)
terminal_stays_example =
    terminal_stays (some "") some_ops (done_row ∷ []) done_row
      (record { ids = (tt, tt); keys = (tt, tt) }) (Memᴰ.head refl) (inl refl)

stale_lease-Fenced_example :
    Fenced
      (update_job (some "") true (λ db. taken_row ∷ []) done 9000 a_job (a_row ∷ []))
      (taken_row ∷ [])
    × Fenced (renew_lease done 9000 9000 a_job (pos 5000) (taken_row ∷ [])) (taken_row ∷ [])
    × Fenced (release_claim done 9000 a_job "shutdown" (taken_row ∷ [])) (taken_row ∷ [])
stale_lease-Fenced_example =
    stale_lease-Fenced (some "") true (λ db. taken_row ∷ []) done 9000 9000 a_job (pos 5000)
      "shutdown" (a_row ∷ []) taken_row (tt, tt) (unfold find_row in refl)
      (record {
        claims_one = differ "mine" "" refl;
        holder = "other";
        held = refl;
        other_holder = differ "other" "mine" refl;
      })

abbrev claimed_as : String → Time → String → Job
claimed_as id due token = record a_job {
  id = id;
  idempotency_key = "";
  state = running;
  attempt = pos 1;
  scheduled_at = some due;
  started_at = some 8000;
  updated_at = 8000;
  lease_expires_at = some 11000;
  lease_token = token;
}

abbrev first_claim : Result Job × Db
first_claim = claim_next_job (some "") (λ id. false) 8000 8000 (pos 3000) (some "t1") done two_rows

first_claim_lem : first_claim.0 ≡ ok (claimed_as "b" 1000 "t1")
unfolding claim_next_job claim_row first_row claimed_row deliver scan_job claimable
first_claim_lem = refl

claim_next_job-ClaimsOne_example :
    ClaimsOne
      (some "")
      (λ id. false)
      8000
      8000
      (pos 3000)
      (some "t1")
      two_rows
      (claimed_as "b" 1000 "t1")
      first_claim.1
claim_next_job-ClaimsOne_example =
    claim_next_job-ClaimsOne (some "") (λ id. false) 8000 8000 (pos 3000) (some "t1") done two_rows
      (claimed_as "b" 1000 "t1") two_rows-IsUnique.ids first_claim_lem

second_claim_lem :
    (claim_next_job (some "") (λ id. false) 8000 8000 (pos 3000) (some "t2") done first_claim.1).0
    ≡ ok (claimed_as "c" 2000 "t2")
unfolding claim_next_job claim_row first_row claimed_row deliver scan_job claimable update_rows
second_claim_lem = refl

claim_exclusive_example : (claimed_as "b" 1000 "t1").id ≢ (claimed_as "c" 2000 "t2").id
claim_exclusive_example =
    claim_exclusive (some "") (λ id. false) (λ id. false) 8000 8000 8000 8000 (pos 3000) (pos 3000)
      (some "t1") (some "t2") done done two_rows (claimed_as "b" 1000 "t1")
      (claimed_as "c" 2000 "t2") two_rows-IsUnique first_claim_lem second_claim_lem

can_transition_iff_example : (can_transition completed dead ≡ true) ↔ (completed ⟶ dead)
can_transition_iff_example = can_transition_iff completed dead

created_lem : (create_job done 9000 a_job two_rows).0 ≡ ok tt
unfolding create_job
created_lem = refl

get_job-create_job_example :
    get_job none true "a" (create_job done 9000 a_job two_rows).1 ≡ ok (as_stored 9000 a_job)
get_job-create_job_example =
    get_job-create_job none done 9000 a_job two_rows
      (inr (differ "key" "" refl, differ "mine" "" refl)) created_lem

abbrev keyless : Job
keyless = record a_job { idempotency_key = "" }

get_job-create_job_null_example :
    get_job none true "a" (create_job done 9000 keyless two_rows).1 ≡ err other_error
get_job-create_job_null_example =
    get_job-create_job_null done 9000 keyless two_rows (unfold create_job in refl) (inl refl)

cancel_job_race_example :
    ((cancel_job (some "") true (λ db. done_row ∷ []) done 9000 "a" (a_row ∷ [])).0 ≡ ok tt)
    × (find_row
          (has_id "a")
          (cancel_job (some "") true (λ db. done_row ∷ []) done 9000 "a" (a_row ∷ [])).1
        ≡ some (record done_row { state = dead; updated_at = truncate_micros 9000 }))
cancel_job_race_example =
    cancel_job_race (some "") (λ db. done_row ∷ []) 9000 "a" (a_row ∷ []) a_row done_row a_job
      (unfold find_row in refl) (unfold scan_job in refl) (unfold can_transition in refl)
      (unfold find_row in refl)
