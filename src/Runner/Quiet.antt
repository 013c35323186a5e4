-- ===== src/Runner/Quiet.antt =====
-- cmd/server/main.go: a call of `UpdateJob` that the store answers while nobody interferes.
use go_task_q.Runner.{call_update, StoreCall}
use go_task_q.Store.Table.{deliver, exec_update, update_rows, Db, find_row, count_rows}
use go_task_q.Base.{
  not, ◌&&◌, ◌||◌, is_some, str_eq_iff, ◌⊎◌, arith, refl, str_eq, inr, ◌∙◌, ap, eq_of_some, inl,
  Bool-cases, [], false, ◌∷◌, ◌==◌, true, some, ◌≡◌, Bool, String,
}
use go_task_q.Store.Rows.{NullText, nullable_string, ok, done, Row}
use go_task_q.Models.{Job}
use go_task_q.Store.Create.{has_id}
use go_task_q.Store.State.{can_transition}
use go_task_q.Store.Update.{write_update, update_job, updated_row, may_update}
use go_task_q.Store.Readable.{readable, scan_readable}
use go_task_q.Store.Races.{check_transition-found}
use go_task_q.Time.{Time}
use go_task_q.Store.Unique.{find_row-holds}

-- A call of `UpdateJob` that is answered and that no other client disturbs.
pub record IsQuiet (c : StoreCall) : Type 0 where
  pub alone_before : (db : Db) → c.before db ≡ db
  pub alone_between : (db : Db) → c.between db ≡ db
  pub answered : c.answers ≡ true
  pub carried_out : c.answer ≡ done

count_rows-ne-zero :
    (p : Row → Bool) (q : Row → Bool) (db : Db) (r : Row)
    → find_row q db ≡ some r
    → p r ≡ true
    → (count_rows p db == 0) ≡ false
unfolding count_rows find_row
count_rows-ne-zero p q [] r e h = cc
count_rows-ne-zero p q (s ∷ db) r e h =
    let rest = count_rows-ne-zero p q db r in
    elim (Bool-cases (q s)) [
      | inl t ↦ rw (ap p (eq_of_some (rw t at e)) ∙ h) (ground arith)
      | inr f ↦ elim (Bool-cases (p s)) [
        | inl t ↦ rw t (ground arith)
        | inr n ↦ rw n (rest (rw f at e) h)
      ]
    ]

pub find_row-updated :
    (id : String) (p : Row → Bool) (f : Row → Row) (db : Db) (s : Row)
    → ((r : Row) → (f r).id ≡ r.id)
    → find_row (has_id id) db ≡ some s
    → p s ≡ true
    → find_row (has_id id) (update_rows p f db) ≡ some (f s)
unfolding find_row update_rows
find_row-updated id p f [] s keep e h = cc
find_row-updated id p f (r ∷ db) s keep e h = elim (Bool-cases (has_id id r)) [
  | inl t ↦
      let same : r ≡ s = eq_of_some (rw t at e) in
      rw (ap p same ∙ h) (rw (ap (λ x. str_eq x id) (keep r) ∙ t) (ap some (ap f same)))
  | inr n ↦ elim (Bool-cases (p r)) [
    | inl m ↦
        rw m (
          rw (ap (λ x. str_eq x id) (keep r) ∙ n) (find_row-updated id p f db s keep (rw n at e) h))
    | inr m ↦ rw m (rw n (find_row-updated id p f db s keep (rw n at e) h))
  ]
]

write_update-found :
    (now : Time) (job : Job) (db : Db) (r : Row)
    → find_row (has_id job.id) db ≡ some r
    → may_update job r ≡ true
    → ((write_update done now job db).0 ≡ ok tt)
      × (find_row (has_id job.id) (write_update done now job db).1 ≡ some (updated_row now job r))
unfolding write_update exec_update deliver
write_update-found now job db r e m = (
  rw (count_rows-ne-zero (may_update job) (has_id job.id) db r e m) refl,
  find_row-updated job.id (may_update job) (updated_row now job) db r
      (λ s. unfold updated_row in refl) e m,
)

-- What the job's own row becomes.
pub update_quiet :
    (null_text : NullText) (c : StoreCall) (job : Job) (db : Db) (r : Row)
    → readable null_text r ≡ true
    → IsQuiet c
    → find_row (has_id job.id) db ≡ some r
    → can_transition r.state job.state ≡ true
    → may_update job r ≡ true
    → ((call_update null_text c job db).0 ≡ ok tt)
      × (find_row (has_id job.id) (call_update null_text c job db).1
          ≡ some (updated_row c.now job r))
unfolding call_update update_job
update_quiet null_text c job db r can q e t m =
    let (read, scanned, _) = scan_readable null_text r can in
    let passed = check_transition-found null_text job.id job.state db r read e scanned t in
    rw (q.alone_before db) (
      rw (q.answered) (
        rw (q.carried_out)
          (rw (q.alone_between db) (rw passed (write_update-found c.now job db r e m)))))

-- The driver makes a string of NULL, or the row has an idempotency key and the job a token.
abbrev pub IsScannable : NullText → Job → Row → Type 0
IsScannable null_text job r =
    (is_some null_text || (is_some r.idempotency_key && not (str_eq job.lease_token ""))) ≡ true

-- The job comes from the row's holder.
abbrev pub IsHolder : Job → Row → Type 0
IsHolder job r = r.lease_token ≡ some job.lease_token

pub may_update-holder :
    (job : Job) (db : Db) (r : Row)
    → find_row (has_id job.id) db ≡ some r
    → (r.lease_token ≡ some job.lease_token) ⊎ (r.lease_token ≡ nullable_string job.lease_token)
    → may_update job r ≡ true
unfolding may_update
may_update-holder job db r e h = ground (
  arith,
  str_eq_iff job.lease_token "",
  str_eq_iff job.lease_token job.lease_token,
  find_row-holds (has_id job.id) db r e,
)

pub readable-holder :
    (null_text : NullText) (job : Job) (r : Row)
    → IsScannable null_text job r
    → IsHolder job r
    → readable null_text r ≡ true
readable-holder null_text job r h held = ground (arith, h, held)

pub readable-nullable_string :
    (null_text : NullText) (job : Job) (r : Row)
    → IsScannable null_text job r
    → (is_some null_text
        || (is_some r.idempotency_key && is_some (nullable_string job.lease_token)))
      ≡ true
readable-nullable_string null_text job r h = ground (arith, h)
