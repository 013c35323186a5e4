-- ===== src/Store/Fencing.antt =====
-- internal/store/store.go: a worker that no longer holds the lease of a job cannot write to it.
use mathlib.Core.Bool.{false≢true}
use go_task_q.Store.Leases.{release_claim, renew_lease, holds_lease}
use go_task_q.Store.Table.{find_row, Db, count_rows, exec_update, update_rows}
use go_task_q.Store.Rows.{NullText, lost, refused, done, ok, other_error, err, Row, Answer, Result}
use go_task_q.Base.{
  inr, str_eq, ◌∙◌, sym, inl, Bool-cases, All-mono, &&-left, if◌then◌else◌, true, refl, [],
  str_eq_iff, ap, ◌∷◌, arith, All, some, false, ◌≡◌, Bool, ◌≢◌, Option, ℕ, String,
}
use go_task_q.Models.{Job}
use go_task_q.Store.Update.{write_update, update_job, when_ok, some_affected, may_update}
use go_task_q.Store.Create.{has_id, text_is}
use go_task_q.Store.Unique.{find_row-only, id_of, DistinctBy}
use go_task_q.Time.{Duration, Time}

pub All-no_match :
    (p : Row → Bool) (f : Row → Row) (db : Db)
    → All (λ r. p r ≡ false) db
    → (update_rows p f db ≡ db) × (count_rows p db ≡ 0)
unfolding update_rows count_rows
All-no_match p f [] h = (refl, refl)
All-no_match p f (r ∷ db) (h, hs) =
    let (same, none_counted) = All-no_match p f db hs in (rw h (ap (◌∷◌ r) same), rw h none_counted)

-- An UPDATE whose condition fails at the row with the identifier, and asks for that identifier,
-- changes nothing.
exec_update-missed :
    (a : Answer) (p : Row → Bool) (f : Row → Row) (db : Db)
    → All (λ r. p r ≡ false) db
    → ((exec_update a p f db).0 ≢ err other_error → (exec_update a p f db).0 ≡ ok 0)
      × ((exec_update a p f db).1 ≡ db)
unfolding exec_update
exec_update-missed done p f db h =
    let (same, zero_rows) = All-no_match p f db h in ((λ _. ap ok zero_rows), same)
exec_update-missed refused p f db h = ((λ n. absurd (n refl)), refl)
exec_update-missed lost p f db h =
    let (same, zero_rows) = All-no_match p f db h in ((λ n. absurd (n refl)), same)

some_affected-missed :
    (o : Result ℕ × Db) (db : Db)
    → (o.0 ≢ err other_error → o.0 ≡ ok 0) × (o.1 ≡ db)
    → ((u : Unit {0}) → (some_affected o).0 ≢ ok u) × ((some_affected o).1 ≡ db)
some_affected-missed (ok n, db') db (h, e) =
    let z : ◌≡◌ {A = Result ℕ} (ok n) (ok 0) = h (λ x. cc) in ((λ u q. ground arith), e)
some_affected-missed (err x, db') db (h, e) = ((λ u q. cc), e)

-- The job's token is no longer the row's, and there is one in the row.
pub record IsStale (job : Job) (r : Row) : Type 0 where
  pub claims_one : job.lease_token ≢ ""
  pub holder : String
  pub held : r.lease_token ≡ some holder
  pub other_holder : holder ≢ job.lease_token

text_is-false : (s t : String) (o : Option String) → o ≡ some t → t ≢ s → text_is s o ≡ false
text_is-false s t o e n = rw e (ground (arith, str_eq_iff t s))

may_update-stale : (job : Job) (r : Row) → IsStale job r → may_update job r ≡ false
unfolding may_update
may_update-stale job r st = ground (
  arith,
  str_eq_iff job.lease_token "",
  text_is-false job.lease_token st.holder r.lease_token st.held st.other_holder,
  st.claims_one,
  st.held,
)

holds_lease-stale : (job : Job) (r : Row) → IsStale job r → holds_lease job r ≡ false
unfolding holds_lease
holds_lease-stale job r st =
    ground (arith, text_is-false job.lease_token st.holder r.lease_token st.held st.other_holder)

missed_of_only :
    (id : String) (p : Row → Bool) (db : Db) (r : Row)
    → DistinctBy id_of db
    → find_row (has_id id) db ≡ some r
    → p r ≡ false
    → ((s : Row) → p s ≡ true → has_id id s ≡ true)
    → All (λ s. p s ≡ false) db
missed_of_only id p db r d e h needs =
    All-mono _ _ db
      (λ s only. elim (Bool-cases (p s)) [
        | inl t ↦ absurd (false≢true (sym h ∙ ap p (sym (only (needs s t))) ∙ t))
        | inr f ↦ f
      ])
      (find_row-only id db r d e)

may_update-has_id : (job : Job) (s : Row) → may_update job s ≡ true → has_id job.id s ≡ true
unfolding may_update
may_update-has_id job s h = &&-left _ _ h

holds_lease-has_id : (job : Job) (s : Row) → holds_lease job s ≡ true → has_id job.id s ≡ true
unfolding holds_lease
holds_lease-has_id job s h = &&-left _ _ (&&-left _ _ h)

-- What a fenced call gives: no success, and the table as it was.
abbrev pub Fenced : Result (Unit {0}) × Db → Db → Type 0
Fenced o db = ((u : Unit {0}) → o.0 ≢ ok u) × (o.1 ≡ db)

when_ok-Fenced :
    (c : Result (Unit {0})) (db : Db) (next : Result (Unit {0}) × Db)
    → Fenced next db
    → Fenced (when_ok c db next) db
when_ok-Fenced (ok u) db next h = h
when_ok-Fenced (err e) db next h = ((λ u q. cc), refl)

if-Fenced :
    (b : Bool) (x y : Result (Unit {0}) × Db) (db : Db)
    → Fenced x db
    → Fenced y db
    → Fenced (if b then x else y) db
if-Fenced true x y db hx hy = hx
if-Fenced false x y db hx hy = hy

-- A job whose token is not empty and is not the one in its row fails with an error and leaves the
-- table as it is, when it calls `UpdateJob` (whatever the job looked like when `UpdateJob` read it,
-- and whatever others did before it wrote), `RenewLease` or `ReleaseClaim`, and however the
-- connection answers. The table has distinct identifiers.
pub stale_lease-Fenced :
    (null_text : NullText) (answers : Bool) (between : Db → Db) (a : Answer) (now db_now : Time)
    (job : Job) (lease : Duration) (reason : String) (db : Db) (r : Row)
    → DistinctBy id_of (between db)
    → find_row (has_id job.id) (between db) ≡ some r
    → IsStale job r
    → Fenced (update_job null_text answers between a now job db) (between db)
      × Fenced (renew_lease a db_now now job lease (between db)) (between db)
      × Fenced (release_claim a db_now job reason (between db)) (between db)
unfolding update_job write_update renew_lease release_claim
stale_lease-Fenced null_text answers between a now db_now job lease reason db r d e st =
    let unheld =
      missed_of_only job.id (holds_lease job) (between db) r d e (holds_lease-stale job r st)
        (holds_lease-has_id job) in
    (
      when_ok-Fenced _ (between db) _ (
          some_affected-missed _ _ (
            exec_update-missed a _ _ (between db) (
              missed_of_only job.id (may_update job) (between db) r d e (may_update-stale job r st)
                (may_update-has_id job)))),
      if-Fenced (str_eq job.lease_token "") _ _ (between db) ((λ u q. cc), refl)
          (some_affected-missed _ _ (exec_update-missed a _ _ (between db) unheld)),
      some_affected-missed _ _ (exec_update-missed a _ _ (between db) unheld),
    )
