-- ===== src/Store/Races.antt =====
-- internal/store/store.go: `CancelJob` checks the state in one statement and writes in another that
-- does not ask for the state again.
use go_task_q.Store.Table.{Db, update_rows, find_row}
use go_task_q.Store.Update.{
  check_state, cancelled_row, when_ok, write_cancel, check_transition, cancel_job,
}
use go_task_q.Store.Create.{scan_found, has_id, get_job}
use go_task_q.Store.Rows.{done, ok, scan_job, Row, NullText}
use go_task_q.Base.{
  refl, arith, [], inr, eq_of_some, ◌∙◌, str_eq, true, ap, inl, Bool-cases, ◌∷◌, some, ◌≡◌, String,
}
use go_task_q.Models.{dead, Job, JobState}
use go_task_q.Time.{truncate_micros, Time}
use go_task_q.Store.State.{can_transition}

pub find_row-update_rows :
    (id : String) (f : Row → Row) (db : Db) (s : Row)
    → ((r : Row) → (f r).id ≡ r.id)
    → find_row (has_id id) db ≡ some s
    → find_row (has_id id) (update_rows (has_id id) f db) ≡ some (f s)
unfolding find_row update_rows
find_row-update_rows id f [] s keep e = cc
find_row-update_rows id f (r ∷ db) s keep e = elim (Bool-cases (has_id id r)) [
  | inl h ↦ rw h (rw (ap (λ x. str_eq x id) (keep r) ∙ h) (ap some (ap f (eq_of_some (rw h at e)))))
  | inr h ↦ rw h (rw h (find_row-update_rows id f db s keep (rw h at e)))
]

pub scan_job-state :
    (null_text : NullText) (r : Row) (job : Job)
    → scan_job null_text r ≡ ok job
    → job.state ≡ r.state
unfolding scan_job
scan_job-state null_text r job h = ground arith

pub check_transition-found :
    (null_text : NullText) (id : String) (to : JobState) (db : Db) (r : Row) (job : Job)
    → find_row (has_id id) db ≡ some r
    → scan_job null_text r ≡ ok job
    → can_transition r.state to ≡ true
    → check_transition null_text true id to db ≡ ok tt
unfolding check_transition get_job
check_transition-found null_text id to db r job e k c =
    ap (λ o. check_state to (scan_found null_text o)) e
    ∙ ap (check_state to) k
    ∙ rw (ap (λ st. can_transition st to) (scan_job-state null_text r job k) ∙ c)

-- The write of `CancelJob` goes through whatever has become of the job since it was read: if the
-- row that was read could be read and its state may be left for DEAD, and other clients then leave
-- the row `s`, in any state, COMPLETED too, `CancelJob` succeeds and `s` is DEAD afterwards, its
-- other columns but `updated_at` unchanged.
pub cancel_job_race :
    (null_text : NullText) (between : Db → Db) (now : Time) (id : String) (db : Db) (r s : Row)
    (job : Job)
    → find_row (has_id id) db ≡ some r
    → scan_job null_text r ≡ ok job
    → can_transition r.state dead ≡ true
    → find_row (has_id id) (between db) ≡ some s
    → ((cancel_job null_text true between done now id db).0 ≡ ok tt)
      × (find_row (has_id id) (cancel_job null_text true between done now id db).1
          ≡ some (record s { state = dead; updated_at = truncate_micros now }))
unfolding cancel_job write_cancel
cancel_job_race null_text between now id db r s job e k c f =
    let passed = check_transition-found null_text id dead db r job e k c in
    let next = write_cancel done now id (between db) in
    (
      ap (λ x. (when_ok x (between db) next).0) passed,
      ap (λ x. find_row (has_id id) (when_ok x (between db) next).1) passed
          ∙ find_row-update_rows id (cancelled_row now) (between db) s (λ x. refl) f,
    )
