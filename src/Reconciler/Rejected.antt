-- ===== src/Reconciler/Rejected.antt =====
-- internal/reconciler/reconciler.go: a claimed job that the worker pool does not take.
use go_task_q.Reconciler.{take_claim, claim_at, rejected_reason, put_back, Turn, Pass, claim_loop}
use mathlib.Core.List.{Memᴰ}
use go_task_q.Store.Rows.{err, eq_of_ok, Result, done, ok, Row, NullText, scan_job}
use go_task_q.Store.Table.{update_rows, deliver, exec_update, Db, find_row}
use go_task_q.Time.{Time, Duration}
use go_task_q.Base.{
  pos, ◌+ℤ◌, none, suc, false, Bool, true, ℕ, refl, [], inr, inl, Bool-cases, str_eq_iff, ◌∙◌, sym,
  str_eq, ap, arith, ◌∷◌, some, ◌≡◌, String,
}
use go_task_q.Store.Leases.{holds_lease, released_row, release_claim}
use go_task_q.Store.Unique.{find_row-holds, id_of, DistinctBy}
use go_task_q.Models.{pending, running, Job}
use go_task_q.Store.Claim.{claimed_row}
use go_task_q.Store.Create.{has_id}
use go_task_q.Store.Picked.{All-mem}
use go_task_q.Runner.Quiet.{find_row-updated}
use go_task_q.Store.Exclusive.{scan_job-id, claimed_row_lem, claim_next_job-Claimed}
use go_task_q.Reconciler.Passes.{claimable-pending}
use go_task_q.Store.Races.{find_row-update_rows}

find_row-mem :
    (db : Db) (r : Row) → DistinctBy id_of db → Memᴰ r db → find_row (has_id r.id) db ≡ some r
unfolding find_row
find_row-mem [] r d m = elim m [ ]
find_row-mem (s ∷ db) r (n, d) (Memᴰ.head e) =
    rw (ap (λ (x : Row). str_eq x.id r.id) (sym e) ∙ (str_eq_iff r.id r.id).1 refl)
      (ap some (sym e))
find_row-mem (s ∷ db) r (n, d) (Memᴰ.tail m) = elim (Bool-cases (has_id r.id s)) [
  | inl t ↦ absurd (All-mem _ db n m (r.id, ap some ((str_eq_iff s.id r.id).0 t), refl))
  | inr f ↦ rw f (find_row-mem db r d m)
]

scan_job-token :
    (null_text : NullText) (r : Row) (job : Job) (token : String)
    → scan_job null_text r ≡ ok job
    → r.lease_token ≡ some token
    → job.lease_token ≡ token
unfolding scan_job
scan_job-token null_text r job token h e = ground arith

-- The row after a claim and a release.
abbrev put_back_row : Turn → Duration → String → Row → Row
put_back_row t lease token r =
    released_row t.released_at rejected_reason (claimed_row t.now lease token r)

holds_lease-own :
    (job : Job) (s : Row)
    → has_id job.id s ≡ true
    → s.state ≡ running
    → s.lease_token ≡ some job.lease_token
    → holds_lease job s ≡ true
unfolding holds_lease
holds_lease-own job s i st held =
    ground (arith, i, st, held, str_eq_iff job.lease_token job.lease_token)

put_back-found :
    (t : Turn) (job : Job) (db : Db) (s : Row)
    → t.before_release db ≡ db
    → t.release_answer ≡ done
    → find_row (has_id job.id) db ≡ some s
    → s.state ≡ running
    → s.lease_token ≡ some job.lease_token
    → find_row (has_id job.id) (put_back t job db).table
      ≡ some (released_row t.released_at rejected_reason s)
unfolding put_back release_claim exec_update deliver
put_back-found t job db s alone answered found st held = rw alone (
    rw answered (
      find_row-updated job.id (holds_lease job) (released_row t.released_at rejected_reason) db s
        (λ r. unfold released_row in refl) found
        (holds_lease-own job s (find_row-holds (has_id job.id) db s found) st held)))

take_claim-refused :
    (t : Turn) (had : Bool) (claimed : ℕ) (rest : Db → Pass) (o : Result Job × Db) (job : Job)
    → o.0 ≡ ok job
    → t.takes job ≡ false
    → take_claim t had claimed rest o ≡ put_back t job o.1
take_claim-refused t had claimed rest (ok j, db) job e n =
    rw (ap t.takes (eq_of_ok e) ∙ n) (ap (λ x. put_back t x db) (eq_of_ok e))
take_claim-refused t had claimed rest (err x, db) job e n = cc

-- The row that a claim has taken, in the table that the claim leaves.
claimed-found :
    (now : Time) (lease : Duration) (token : String) (db db' : Db) (r : Row) (job : Job)
    → DistinctBy id_of db
    → Memᴰ r db
    → job.id ≡ r.id
    → db' ≡ update_rows (has_id r.id) (claimed_row now lease token) db
    → find_row (has_id job.id) db' ≡ some (claimed_row now lease token r)
claimed-found now lease token db db' r job d m same e =
    ap (λ i. find_row (has_id i) db') same
    ∙ ap (find_row (has_id r.id)) e
    ∙ find_row-update_rows r.id (claimed_row now lease token) db r (λ x. unfold claimed_row in refl)
        (find_row-mem db r d m)

-- A pass whose first claim succeeds, and the worker pool does not take the job; its release is
-- carried out undisturbed, from a table with distinct identifiers. Then the job's row, which was
-- pending, is pending again, without a token, but its attempt counter has gone up by one although
-- no attempt was made.
pub rejected_attempt :
    (null_text : NullText) (lease : Duration) (turns : ℕ → Turn) (had : Bool) (n : ℕ) (db : Db)
    (job : Job)
    → DistinctBy id_of ((turns 0).before_claim db)
    → (turns 0).ctx_done ≡ false
    → (claim_at null_text lease (turns 0) db).0 ≡ ok job
    → (turns 0).takes job ≡ false
    → ((x : Db) → (turns 0).before_release x ≡ x)
    → (turns 0).release_answer ≡ done
    → (r : Row) × (q : Row) × Memᴰ r ((turns 0).before_claim db)
      × (find_row (has_id job.id) (claim_loop null_text lease turns had (suc n) 0 db).table
          ≡ some q)
      × (r.id ≡ job.id)
      × (r.state ≡ pending)
      × (q.state ≡ pending)
      × (q.lease_token ≡ none)
      × (q.attempt ≡ r.attempt +ℤ pos 1)
unfolding claim_loop
rejected_attempt null_text lease turns had n db job d going k refuses alone answered =
    let t = turns 0 in
    let c =
      claim_next_job-Claimed null_text t.locked t.db_now t.now lease t.token t.claim_answer
        (t.before_claim db) job k in
    let s = claimed_row t.now lease c.token c.row in
    let (same_id, is_running) = claimed_row_lem t.now lease c.token c.row in
    let same = scan_job-id null_text s job c.scanned ∙ same_id in
    let own = scan_job-token null_text s job c.token c.scanned (unfold claimed_row in refl) in
    let found =
      claimed-found t.now lease c.token (t.before_claim db) _ c.row job d c.mem same c.table in
    let row = put_back_row t lease c.token c.row in
    (
      c.row,
      row,
      c.mem,
      rw going (
          ap (λ (p : Pass). find_row (has_id job.id) p.table)
            (take_claim-refused t had 0 _ (claim_at null_text lease t db) job k refuses)
          ∙ put_back-found t job _ s (alone _) answered found is_running
              (unfold claimed_row in ap some (sym own))),
      sym same,
      claimable-pending t.locked t.db_now c.row c.eligible,
      unfold released_row in refl,
      unfold released_row in refl,
      unfold released_row claimed_row in refl,
    )
