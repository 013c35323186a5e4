-- ===== src/Reconciler/Enqueues.antt =====
-- internal/reconciler/reconciler.go: jobs that are enqueued while a pass runs.
use go_task_q.Reconciler.Passes.{IsTame, Settled}
use go_task_q.Store.Create.{create_job, has_id, insert_row, key_taken, new_row}
use go_task_q.Store.Rows.{Answer, done, refused, lost, Row}
use go_task_q.Store.Table.{Db, deliver}
use go_task_q.Models.{Job}
use go_task_q.Time.{Time}
use mathlib.Core.Bool.{false≢true}
use go_task_q.Base.{
  Bool-cases, inl, inr, any, ◌++◌, ◌∷◌, [], ◌≡◌, true, false, String, sym, ◌∙◌, ap, All-append,
}

any-append :
    (id : String) (db : Db) (r : Row)
    → any (has_id id) db ≡ true
    → any (has_id id) (db ++ r ∷ []) ≡ true
any-append id [] r h = cc
any-append id (s ∷ db) r h = elim (Bool-cases (has_id id s)) [
  | inl t ↦ rw t
  | inr f ↦ rw f (any-append id db r (rw f at h))
]

append-Settled :
    (id : String) (db : Db) (r : Row)
    → any (has_id r.id) db ≡ false
    → Settled id db
    → Settled id (db ++ r ∷ [])
append-Settled id db r f (p, n) = (
  any-append id db r p,
  All-append _ db (r ∷ []) n
      ((λ same. absurd (false≢true (sym f ∙ ap (λ i. any (has_id i) db) same ∙ p))), tt),
)

insert_row-Settled :
    (id : String) (db : Db) (r : Row) → Settled id db → Settled id (insert_row r db).1
unfolding insert_row
insert_row-Settled id db r h = elim (Bool-cases (any (has_id r.id) db)) [
  | inl t ↦ rw t h
  | inr f ↦ elim (Bool-cases (key_taken r.idempotency_key db)) [
    | inl t ↦ rw (f, t) h
    | inr k ↦ rw (f, k) (append-Settled id db r f h)
  ]
]

create_job-Settled :
    (a : Answer) (now : Time) (job : Job) (id : String) (db : Db)
    → Settled id db
    → Settled id (create_job a now job db).1
unfolding create_job deliver
create_job-Settled done now job id db h = insert_row-Settled id db (new_row now job) h
create_job-Settled refused now job id db h = h
create_job-Settled lost now job id db h = insert_row-Settled id db (new_row now job) h

-- Another client that enqueues a job, whatever the answer, does what the pass allows for.
pub create_job-IsTame :
    (a : Answer) (now : Time) (job : Job) → IsTame (λ db. (create_job a now job db).1)
create_job-IsTame a now job = record { keeps_away = create_job-Settled a now job }
