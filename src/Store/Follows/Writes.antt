-- ===== src/Store/Follows/Writes.antt =====
-- internal/store/store.go: `UpdateJob` and `CancelJob` move rows along the lifecycle when no other
-- client comes between their two statements.
use go_task_q.Base.{
  some, All-mono, ◌≡◌, refl, sym, subst, inl, inr, Bool, true, some, String, arith, Option-cases,
  &&-left,
}
use go_task_q.Time.{Time}
use go_task_q.Models.{dead, JobState, Job}
use go_task_q.Store.State.{allowed-⟶, edge, can_transition}
use go_task_q.Store.Rows.{Row, Result, ok, err, Answer, NullText, scan_job}
use go_task_q.Store.Table.{Db, find_row}
use go_task_q.Store.Create.{has_id, get_job}
use go_task_q.Store.Update.{
  when_ok, write_cancel, updated_row, may_update, cancel_job, write_update, cancelled_row,
  update_job, check_transition,
}
use go_task_q.Store.Unique.{find_row-only, IsUnique}
use go_task_q.Store.Follows.{
  Follows, Follows-refl, Steps, Follows-exec_update, some_affected-db, ignore_affected-db,
}

-- A check that passes has seen the row, in a state from which the move is allowed.
pub check_transition-ok :
    (null_text : NullText) (answers : Bool) (id : String) (to : JobState) (db : Db) (u : Unit {0})
    → check_transition null_text answers id to db ≡ ok u
    → (r : Row) × (find_row (has_id id) db ≡ some r) × (can_transition r.state to ≡ true)
unfolding check_transition get_job scan_job
check_transition-ok null_text answers id to db u h = elim (Option-cases (find_row (has_id id) db)) [
  | inl e ↦ absurd (ground arith)
  | inr (r, e) ↦ (r, e, ground arith)
]

updated-Steps :
    (now : Time) (job : Job) (r : Row)
    → can_transition r.state job.state ≡ true
    → (s : Row) → (has_id job.id s ≡ true → s ≡ r)
    → Steps (may_update job) (updated_row now job) s
unfolding may_update updated_row
updated-Steps now job r c s only h = record {
  same_id = refl;
  same_key = refl;
  same_created = refl;
  moves = edge (
      allowed-⟶ s.state job.state (
        subst (λ (x : Row). can_transition x.state job.state ≡ true) (sym (only (&&-left _ _ h)))
          c));
}

write_update-Follows :
    (a : Answer) (now : Time) (job : Job) (db : Db) (r : Row)
    → IsUnique db
    → find_row (has_id job.id) db ≡ some r
    → can_transition r.state job.state ≡ true
    → Follows db (write_update a now job db).1
unfolding write_update
write_update-Follows a now job db r u e c = subst (Follows db) (sym (some_affected-db _)) (
    Follows-exec_update a _ _ db
      (All-mono _ _ db (updated-Steps now job r c) (find_row-only job.id db r u.ids e)))

pub when_ok-db {ℓ} :
    (P : Db → Type ℓ) (c : Result (Unit {0})) (db : Db) (next : Result (Unit {0}) × Db)
    → P db
    → ((u : Unit {0}) → c ≡ ok u → P next.1)
    → P (when_ok c db next).1
when_ok-db P (ok u) db next h k = k u refl
when_ok-db P (err e) db next h k = h

-- No other client comes in between.
abbrev pub alone : Db → Db
alone db = db

pub update_job-Follows :
    (null_text : NullText) (answers : Bool) (a : Answer) (now : Time) (job : Job) (db : Db)
    → IsUnique db
    → Follows db (update_job null_text answers alone a now job db).1
unfolding update_job
update_job-Follows null_text answers a now job db u =
    when_ok-db (Follows db) (check_transition null_text answers job.id job.state db) db _
      (Follows-refl db)
      λ w e.
        let (r, found, allowed) = check_transition-ok null_text answers job.id job.state db w e in
        write_update-Follows a now job db r u found allowed

cancelled-Steps :
    (now : Time) (id : String) (r : Row)
    → can_transition r.state dead ≡ true
    → (s : Row) → (has_id id s ≡ true → s ≡ r)
    → Steps (has_id id) (cancelled_row now) s
unfolding cancelled_row
cancelled-Steps now id r c s only h = record {
  same_id = refl;
  same_key = refl;
  same_created = refl;
  moves = edge (
      allowed-⟶ s.state dead
        (subst (λ (x : Row). can_transition x.state dead ≡ true) (sym (only h)) c));
}

write_cancel-Follows :
    (a : Answer) (now : Time) (id : String) (db : Db) (r : Row)
    → IsUnique db
    → find_row (has_id id) db ≡ some r
    → can_transition r.state dead ≡ true
    → Follows db (write_cancel a now id db).1
unfolding write_cancel
write_cancel-Follows a now id db r u e c = subst (Follows db) (sym (ignore_affected-db _)) (
    Follows-exec_update a _ _ db
      (All-mono _ _ db (cancelled-Steps now id r c) (find_row-only id db r u.ids e)))

pub cancel_job-Follows :
    (null_text : NullText) (answers : Bool) (a : Answer) (now : Time) (id : String) (db : Db)
    → IsUnique db
    → Follows db (cancel_job null_text answers alone a now id db).1
unfolding cancel_job
cancel_job-Follows null_text answers a now id db u =
    when_ok-db (Follows db) (check_transition null_text answers id dead db) db _ (Follows-refl db)
      λ w e.
        let (r, found, allowed) = check_transition-ok null_text answers id dead db w e in
        write_cancel-Follows a now id db r u found allowed
