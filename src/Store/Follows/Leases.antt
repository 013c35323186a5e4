-- ===== src/Store/Follows/Leases.antt =====
-- internal/store/store.go: `ClaimNextJob`, `RenewLease`, `ReleaseClaim` and
-- `RequeueExpiredRunning` move rows along the lifecycle.
use mathlib.Core.List.{Memᴰ}
use go_task_q.Base.{
  pos_part, pos, leb_ℤ, ℤ, none, some, Option, All-mono, ℕ, ◌≡◌, refl, sym, subst, inl, inr, Bool,
  true, some, String, str_eq, All-intro, Option-cases, if_both, &&-left, &&-right,
}
use go_task_q.Time.{Time, Duration}
use go_task_q.Models.{pending, JobState, running, state_eq_sound, Job}
use go_task_q.Store.State.{kill_running, start, edge, Move, stays, gives_up}
use go_task_q.Store.Rows.{Row, Result, ok, err, Answer, NullText}
use go_task_q.Store.Table.{first_row, Db}
use go_task_q.Store.Create.{has_id}
use go_task_q.Store.Leases.{
  exhausted, expired, is_selected, requeued_row, requeue_expired_running, selected, holds_lease,
  renewed_row, renew_lease, released_row, release_claim,
}
use go_task_q.Store.Claim.{claim_row, scan_claimed, claim_next_job, claimed_row, claimable}
use go_task_q.Store.Unique.{IsUnique}
use go_task_q.Store.Picked.{
  All-intro_mem, All-mem, take-Chosen, any-Chosen, mem-only, first_row-mem,
}
use go_task_q.Store.Follows.{
  Follows, Follows-refl, Steps, Follows-update_rows, Follows-exec_update, Follows-deliver,
  some_affected-db,
}

-- The row that a job with a lease holds is running.
holds_lease-running : (job : Job) (r : Row) → holds_lease job r ≡ true → r.state ≡ running
unfolding holds_lease
holds_lease-running job r h =
    state_eq_sound r.state running (&&-right (has_id job.id r) _ (&&-left _ _ h))

from_running : {s t : JobState} → s ≡ running → Move running t → Move s t
from_running {t = t} e m = subst (λ x. Move x t) (sym e) m

released-Steps :
    (db_now : Time) (job : Job) (reason : String) (r : Row)
    → Steps (holds_lease job) (released_row db_now reason) r
unfolding released_row
released-Steps db_now job reason r h = record {
  same_id = refl;
  same_key = refl;
  same_created = refl;
  moves = from_running (holds_lease-running job r h) gives_up;
}

renewed-Steps :
    (db_now now : Time) (job : Job) (lease : Duration) (r : Row)
    → Steps (holds_lease job) (renewed_row db_now now lease) r
unfolding renewed_row
renewed-Steps db_now now job lease r h = record {
  same_id = refl;
  same_key = refl;
  same_created = refl;
  moves = stays;
}

pub release_claim-Follows :
    (a : Answer) (db_now : Time) (job : Job) (reason : String) (db : Db)
    → Follows db (release_claim a db_now job reason db).1
unfolding release_claim
release_claim-Follows a db_now job reason db =
    subst (Follows db) (sym (some_affected-db _))
      (Follows-exec_update a _ _ db (All-intro _ db (released-Steps db_now job reason)))

pub renew_lease-Follows :
    (a : Answer) (db_now now : Time) (job : Job) (lease : Duration) (db : Db)
    → Follows db (renew_lease a db_now now job lease db).1
unfolding renew_lease
renew_lease-Follows a db_now now job lease db =
    if_both (λ (o : Result (Unit {0}) × Db). Follows db o.1) (str_eq job.lease_token "")
      (Follows-refl db)
      (subst (Follows db) (sym (some_affected-db _))
        (Follows-exec_update a _ _ db (All-intro _ db (renewed-Steps db_now now job lease))))

claimed-Steps :
    (locked : String → Bool) (db_now now : Time) (lease : Duration) (token : String) (r s : Row)
    → claimable locked db_now r ≡ true
    → (has_id r.id s ≡ true → s ≡ r)
    → Steps (has_id r.id) (claimed_row now lease token) s
unfolding claimable claimed_row
claimed-Steps locked db_now now lease token r s c only h = record {
  same_id = refl;
  same_key = refl;
  same_created = refl;
  moves =
      subst (λ (x : Row). Move x.state running) (sym (only h))
        (subst (λ x. Move x running)
          (sym (state_eq_sound r.state pending (&&-left _ _ (&&-left _ _ c)))) (edge start));
}

pub scan_claimed-db :
    (null_text : NullText) (o : Result Row × Db) → (scan_claimed null_text o).1 ≡ o.1
scan_claimed-db null_text (ok r, db) = refl
scan_claimed-db null_text (err e, db) = refl

claim_row-Follows :
    (locked : String → Bool) (db_now now : Time) (lease : Duration) (token : String) (db : Db)
    → IsUnique db
    → Follows db (claim_row locked db_now now lease token db).1
unfolding claim_row
claim_row-Follows locked db_now now lease token db u =
    elim (Option-cases (first_row (claimable locked db_now) Row.scheduled_at db)) [
      | inl e ↦ rw (e, claim_row) (Follows-refl db)
      | inr (r, e) ↦
          let (m, c) = first_row-mem (claimable locked db_now) Row.scheduled_at db e in
          rw (e, claim_row)
            (Follows-update_rows _ _ db (
              All-mono _ _ db (λ s. claimed-Steps locked db_now now lease token r s c)
                (mem-only db r u.ids m)))
    ]

pub claim_next_job-Follows :
    (null_text : NullText) (locked : String → Bool) (db_now now : Time) (lease : Duration)
    (token : Option String) (a : Answer) (db : Db)
    → IsUnique db
    → Follows db (claim_next_job null_text locked db_now now lease token a db).1
unfolding claim_next_job
claim_next_job-Follows null_text locked db_now now lease none a db u = Follows-refl db
claim_next_job-Follows null_text locked db_now now lease (some token) a db u =
    subst (Follows db) (sym (scan_claimed-db null_text _))
      (Follows-deliver a _ db (claim_row-Follows locked db_now now lease token db u))

-- A selected row is one of the expired ones.
selected-expired :
    (locked : String → Bool) (db_now : Time) (n : ℕ) (db : Db) (s : Row)
    → IsUnique db
    → Memᴰ s db
    → is_selected (selected locked db_now n db) s ≡ true
    → expired locked db_now s ≡ true
unfolding selected
selected-expired locked db_now n db s u m h =
    let (t, (mt, et), same) =
      any-Chosen (expired locked db_now) db _ s.id
        (take-Chosen n (expired locked db_now) Row.lease_expires_at db) h in
    subst (λ (x : Row). expired locked db_now x ≡ true)
      (All-mem _ db (mem-only db s u.ids m) mt same) et

requeued-Move :
    (locked : String → Bool) (db_now : Time) (s : Row)
    → expired locked db_now s ≡ true
    → Move s.state (requeued_row db_now s).state
unfolding requeued_row expired
requeued-Move locked db_now s h =
    from_running (state_eq_sound s.state running (&&-left _ _ (&&-left _ _ h)))
      (if_both (Move running) (exhausted s) (edge kill_running) gives_up)

requeued-Steps :
    (locked : String → Bool) (db_now : Time) (n : ℕ) (db : Db)
    → IsUnique db
    → (s : Row) → Memᴰ s db
    → Steps (is_selected (selected locked db_now n db)) (requeued_row db_now) s
unfolding requeued_row
requeued-Steps locked db_now n db u s m h = record {
  same_id = refl;
  same_key = refl;
  same_created = refl;
  moves = requeued-Move locked db_now s (selected-expired locked db_now n db s u m h);
}

pub requeue_expired_running-Follows :
    (locked : String → Bool) (db_now : Time) (a : Answer) (limit : ℤ) (db : Db)
    → IsUnique db
    → Follows db (requeue_expired_running locked db_now a limit db).1
unfolding requeue_expired_running
requeue_expired_running-Follows locked db_now a limit db u =
    if_both (λ (o : Result ℕ × Db). Follows db o.1) (leb_ℤ limit (pos 0)) (Follows-refl db)
      (Follows-exec_update a _ _ db
        (All-intro_mem _ db (requeued-Steps locked db_now (pos_part limit) db u)))
