-- ===== src/Store/Follows.antt =====
-- internal/store: what an operation may do to the rows of the table: it loses none, keeps the
-- identity of each, and moves its state along the lifecycle.
pub mod Leases
pub mod Writes
use mathlib.Core.List.{Memᴰ}
use go_task_q.Base.{
  pos_part, pos, leb_ℤ, ℤ, none, some, Option, All-mono, ℕ, ◌≡◌, refl, sym, subst, inl, inr, Bool,
  true, false, some, [], ◌∷◌, ◌++◌, String, str_eq, if◌then◌else◌, arith, All, All-intro,
  Option-cases, if_both, &&-left, &&-right, any,
}
use go_task_q.Time.{Time, Duration}
use go_task_q.Models.{pending, dead, JobState, running, state_eq_sound, Job}
use go_task_q.Store.State.{
  kill_running, allowed-⟶, start, edge, can_transition, Move, stays, gives_up,
}
use go_task_q.Store.Rows.{Row, Result, ok, err, Answer, done, refused, lost, NullText, scan_job}
use go_task_q.Store.Table.{first_row, Db, find_row, update_rows, deliver, exec_update}
use go_task_q.Store.Create.{has_id, key_taken, new_row, insert_row, create_job, get_job}
use go_task_q.Store.Update.{
  when_ok, write_cancel, updated_row, may_update, cancel_job, write_update, cancelled_row,
  update_job, some_affected, ignore_affected, check_transition,
}
use go_task_q.Store.Leases.{
  exhausted, expired, is_selected, requeued_row, requeue_expired_running, selected, holds_lease,
  renewed_row, renew_lease, released_row, release_claim,
}
use go_task_q.Store.Claim.{claim_row, scan_claimed, claim_next_job, claimed_row, claimable}
use go_task_q.Store.Unique.{find_row-only, IsUnique}
use go_task_q.Store.Picked.{
  All-intro_mem, All-mem, take-Chosen, any-Chosen, mem-only, first_row-mem,
}

-- What one operation may do to a row.
pub record RowStep (r s : Row) : Type 0 where
  pub same_id : s.id ≡ r.id
  pub same_key : s.idempotency_key ≡ r.idempotency_key
  pub same_created : s.created_at ≡ r.created_at
  pub moves : Move r.state s.state

pub RowStep-refl : (r : Row) → RowStep r r
RowStep-refl r = record { same_id = refl; same_key = refl; same_created = refl; moves = stays }

-- No row is lost; rows may be added at the end.
abbrev pub Follows : Db → Db → Type 0
Follows [] db = Unit
Follows (r ∷ db) [] = ⊥
Follows (r ∷ db) (s ∷ db') = RowStep r s × Follows db db'

pub Follows-refl : (db : Db) → Follows db db
Follows-refl [] = tt
Follows-refl (r ∷ db) = (RowStep-refl r, Follows-refl db)

Follows-append : (db new : Db) → Follows db (db ++ new)
Follows-append [] new = tt
Follows-append (r ∷ db) new = (RowStep-refl r, Follows-append db new)

abbrev pub Steps : (Row → Bool) → (Row → Row) → Row → Type 0
Steps p f r = p r ≡ true → RowStep r (f r)

RowStep-cond :
    (b : Bool) (f : Row → Row) (r : Row)
    → (b ≡ true → RowStep r (f r))
    → RowStep r (if b then f r else r)
RowStep-cond true f r h = h refl
RowStep-cond false f r h = RowStep-refl r

pub Follows-update_rows :
    (p : Row → Bool) (f : Row → Row) (db : Db)
    → All (Steps p f) db
    → Follows db (update_rows p f db)
unfolding update_rows
Follows-update_rows p f [] h = tt
Follows-update_rows p f (r ∷ db) (h, hs) = (RowStep-cond (p r) f r h, Follows-update_rows p f db hs)

pub Follows-exec_update :
    (a : Answer) (p : Row → Bool) (f : Row → Row) (db : Db)
    → All (Steps p f) db
    → Follows db (exec_update a p f db).1
unfolding exec_update
Follows-exec_update done p f db h = Follows-update_rows p f db h
Follows-exec_update refused p f db h = Follows-refl db
Follows-exec_update lost p f db h = Follows-update_rows p f db h

pub Follows-deliver :
    {A : Type 0} (a : Answer) (outcome : Result A × Db) (db : Db)
    → Follows db outcome.1
    → Follows db (deliver a outcome db).1
unfolding deliver
Follows-deliver done outcome db h = h
Follows-deliver refused outcome db h = Follows-refl db
Follows-deliver lost outcome db h = h

insert_row-Follows : (r : Row) (db : Db) → Follows db (insert_row r db).1
unfolding insert_row
insert_row-Follows r db =
    if_both (λ (o : Result (Unit {0}) × Db). Follows db o.1) (any (has_id r.id) db)
      (Follows-refl db)
      (if_both (λ (o : Result (Unit {0}) × Db). Follows db o.1) (key_taken r.idempotency_key db)
        (Follows-refl db) (Follows-append db (r ∷ [])))

pub create_job-Follows :
    (a : Answer) (now : Time) (job : Job) (db : Db) → Follows db (create_job a now job db).1
unfolding create_job
create_job-Follows a now job db =
    Follows-deliver a (insert_row (new_row now job) db) db (insert_row-Follows (new_row now job) db)

pub some_affected-db : (o : Result ℕ × Db) → (some_affected o).1 ≡ o.1
some_affected-db (ok n, db) = refl
some_affected-db (err e, db) = refl

pub ignore_affected-db : (o : Result ℕ × Db) → (ignore_affected o).1 ≡ o.1
ignore_affected-db (ok n, db) = refl
ignore_affected-db (err e, db) = refl
