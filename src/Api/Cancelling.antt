-- ===== src/Api/Cancelling.antt =====
-- internal/api/handler.go: what `CancelJob` answers, by the state of the job, and when it is asked
-- again.
use go_task_q.Models.{pending, running, completed, failed, other, JobState, dead, Job}
use go_task_q.Time.{Time}
use go_task_q.Store.Rows.{
  other_error, StoreError, Row, NullText, ok, err, not_found, invalid_transition, done, scan_job,
}
use go_task_q.Store.Table.{Db, find_row}
use go_task_q.Store.Create.{has_id, get_job, scan_found}
use go_task_q.Store.State.{can_transition}
use go_task_q.Store.Update.{
  cancel_job, cancelled_row, check_state, check_transition, when_ok, write_cancel,
}
use go_task_q.Store.Races.{cancel_job_race, scan_job-state}
use go_task_q.Service.{cancel}
use go_task_q.Api.{Response, after_cancel, cancel_job_request}
use go_task_q.Base.{
  ◌&&◌, arith, Bool, inr, sym, inl, Bool-cases, ◌∙◌, true, if◌then◌else◌, false, refl, some, ℕ, ap,
  none, ◌≡◌, String, Option,
}
use go_task_q.Store.Readable.{scan_unreadable, scan_readable, readable}

check_transition-refused :
    (null_text : NullText) (id : String) (to : JobState) (db : Db) (r : Row) (job : Job)
    → find_row (has_id id) db ≡ some r
    → scan_job null_text r ≡ ok job
    → can_transition r.state to ≡ false
    → check_transition null_text true id to db ≡ err invalid_transition
unfolding check_transition get_job
check_transition-refused null_text id to db r job e k c =
    ap (λ o. check_state to (scan_found null_text o)) e
    ∙ ap (check_state to) k
    ∙ rw (ap (λ st. can_transition st to) (scan_job-state null_text r job k) ∙ c) refl

check_transition-unreadable :
    (null_text : NullText) (id : String) (to : JobState) (db : Db) (r : Row)
    → find_row (has_id id) db ≡ some r
    → readable null_text r ≡ false
    → check_transition null_text true id to db ≡ err other_error
unfolding check_transition get_job check_state
check_transition-unreadable null_text id to db r e u =
    ap (λ o. check_state to (scan_found null_text o)) e
    ∙ ap (check_state to) (scan_unreadable null_text r u)

check_transition-missing :
    (null_text : NullText) (id : String) (to : JobState) (db : Db)
    → find_row (has_id id) db ≡ none
    → check_transition null_text true id to db ≡ err not_found
unfolding check_transition get_job check_state
check_transition-missing null_text id to db e = ap (λ o. check_state to (scan_found null_text o)) e

abbrev pub cancellable : JobState → Bool
cancellable pending = true
cancellable running = true
cancellable failed = true
cancellable _ = false

can_transition-dead : (state : JobState) → can_transition state dead ≡ cancellable state
unfolding can_transition
can_transition-dead pending = refl
can_transition-dead running = refl
can_transition-dead completed = refl
can_transition-dead failed = refl
can_transition-dead dead = refl
can_transition-dead (other s) = refl

module _ (null_text : NullText) where
  abbrev pub status_for : Option Row → ℕ
  status_for none = 404
  status_for (some r) =
      if readable null_text r then if cancellable r.state then 200 else 409 else 500

  abbrev pub status_again : Option Row → ℕ
  status_again none = 404
  status_again (some r) = if readable null_text r then 409 else 500

  abbrev left_by : Time → Option Row → Option Row
  left_by now none = none
  left_by now (some r) =
      if readable null_text r && cancellable r.state then some (cancelled_row now r) else some r

module _ (null_text : NullText) (now : Time) (id : String) where
  abbrev request : Db → Response × Db
  request db = cancel_job_request null_text true (λ d. d) done now id db

  -- The status of the response, and the row afterwards.
  abbrev Ends : Option Row → Db → Type 0
  Ends o db =
      ((request db).0.status ≡ status_for null_text o)
      × (find_row (has_id id) (request db).1 ≡ left_by null_text now o)

  refused-Ends :
      (o : Option Row) (db : Db)
      → find_row (has_id id) db ≡ o
      → (e : StoreError) → check_transition null_text true id dead db ≡ err e
      → (after_cancel (err e)).status ≡ status_for null_text o
      → left_by null_text now o ≡ o
      → Ends o db
  unfolding cancel_job_request cancel cancel_job
  refused-Ends o db f e h s l = (
    ap (λ x. (after_cancel (when_ok x db (write_cancel done now id db)).0).status) h ∙ s,
    ap (λ x. find_row (has_id id) (when_ok x db (write_cancel done now id db)).1) h ∙ f ∙ sym l,
  )

  readable-Ends :
      (r : Row) (db : Db)
      → find_row (has_id id) db ≡ some r
      → readable null_text r ≡ true
      → Ends (some r) db
  unfolding cancel_job_request cancel cancelled_row
  readable-Ends r db f can =
      let (job, scanned, _) = scan_readable null_text r can in
      elim (Bool-cases (cancellable r.state)) [
        | inl t ↦
            let (done_ok, kept) =
              cancel_job_race null_text (λ d. d) now id db r r job f scanned
                (can_transition-dead r.state ∙ t) f in
            rw (can, t) (ap (λ x. (after_cancel x).status) done_ok, kept)
        | inr n ↦
            refused-Ends (some r) db f invalid_transition
              (check_transition-refused null_text id dead db r job f scanned
                (can_transition-dead r.state ∙ n))
              (rw (can, n) refl) (rw (can, n) refl)
      ]

  cancel-Ends : (o : Option Row) (db : Db) → find_row (has_id id) db ≡ o → Ends o db
  cancel-Ends none db f =
      refused-Ends none db f not_found (check_transition-missing null_text id dead db f) refl refl
  cancel-Ends (some r) db f = elim (Bool-cases (readable null_text r)) [
    | inl can ↦ readable-Ends r db f can
    | inr not ↦
        refused-Ends (some r) db f other_error
          (check_transition-unreadable null_text id dead db r f not) (rw not refl) (rw not refl)
  ]

  again_lem :
      (o : Option Row) → status_for null_text (left_by null_text now o) ≡ status_again null_text o
  unfolding cancelled_row
  again_lem none = refl
  again_lem (some r) = ground arith

  -- With a store that answers, and nobody else at the job: the status of a cancellation is 404 if
  -- there is no such job, 500 if the driver cannot read its row (it refuses NULL texts, and the row
  -- has no idempotency key or, as every pending job, no lease token), and else 200 if the job is
  -- pending, running or failed, and 409 if not. A second request is answered with 409 where the row
  -- can be read, and with 404 or 500 again where it cannot.
  pub cancel_job_request-twice :
      (db : Db)
      → ((cancel_job_request null_text true (λ d. d) done now id db).0.status
          ≡ status_for null_text (find_row (has_id id) db))
        × ((cancel_job_request null_text true
              (λ d. d)
              done
              now
              id
              (cancel_job_request null_text true (λ d. d) done now id db).1).0.status
            ≡ status_again null_text (find_row (has_id id) db))
  cancel_job_request-twice db =
      let first = cancel-Ends (find_row (has_id id) db) db refl in
      let second =
        cancel-Ends (left_by null_text now (find_row (has_id id) db)) (request db).1 first.1 in
      (first.0, second.0 ∙ again_lem (find_row (has_id id) db))
