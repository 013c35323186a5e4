-- ===== src/Runner/Stale.antt =====
-- cmd/server/main.go: a run whose lease another worker has taken over in the meantime.
use go_task_q.Retry
use go_task_q.Retry.{Float}
use go_task_q.Runner.{
  should_retry, execute, RunError, dead_job, failed_job, fine, reported, completed_job, dead_letter,
  second_update, schedule_retry, Surroundings, run_claimed, after_execute, Handlers, StoreCall,
  call_update,
}
use go_task_q.Time.{Duration}
use go_task_q.Store.Table.{find_row, Db}
use go_task_q.Store.Rows.{err, ok, Row, Result, NullText}
use go_task_q.Base.{
  ◌∙◌, sym, none, pos, Option, some, arith, false, refl, true, if◌then◌else◌, ◌≡◌, ◌≢◌, Bool,
}
use go_task_q.Models.{Job}
use go_task_q.Breaker.{Breaker}
use go_task_q.Store.Fencing.{stale_lease-Fenced, IsStale, Fenced}
use go_task_q.Store.Unique.{id_of, DistinctBy}
use go_task_q.Store.Create.{has_id}

-- The table that the first call of `UpdateJob` after the handler writes to.
abbrev pub table_at : StoreCall → Db → Db
table_at c db = c.between (c.before db)

IsStale-alike :
    (job job' : Job) (r : Row) → job'.lease_token ≡ job.lease_token → IsStale job r → IsStale job' r
IsStale-alike job job' r e st = record {
  claims_one = λ h. st.claims_one (sym e ∙ h);
  holder = st.holder;
  held = st.held;
  other_holder = λ h. st.other_holder (h ∙ e);
}

call_update-stale :
    (null_text : NullText) (c : StoreCall) (job : Job) (db : Db) (r : Row)
    → DistinctBy id_of (table_at c db)
    → find_row (has_id job.id) (table_at c db) ≡ some r
    → IsStale job r
    → Fenced (call_update null_text c job db) (table_at c db)
unfolding call_update
call_update-stale null_text c job db r d e st =
    (stale_lease-Fenced null_text c.answers c.between c.answer c.now c.now job (pos 0) ""
      (c.before db) r d e st).0

module _ (f : Float) (engine : Retry.Config f) (handlers : Handlers) (lease : Duration) where
  second_update-missed :
      (s : Surroundings f) (job : Job) (o : Result (Unit {0}) × Db) (db : Db)
      → Fenced o db
      → second_update f engine handlers lease s job o ≡ db
  second_update-missed s job (ok u, db') db (n, e) = absurd (n u refl)
  second_update-missed s job (err x, db') db (n, e) = e

  reported-missed :
      (o : Result (Unit {0}))
      → ((u : Unit {0}) → o ≢ ok u)
      → reported f engine handlers lease o ≢ fine
  reported-missed (ok u) n h = n u refl
  reported-missed (err x) n h = ground arith

  branch : (c : Bool) (x y db : Db) → x ≡ db → y ≡ db → (if c then x else y) ≡ db
  branch true x y db h k = h
  branch false x y db h k = k

  after_execute-stale :
      (s : Surroundings f) (job : Job) (result : Option RunError) (db : Db) (b : Breaker) (r : Row)
      → DistinctBy id_of (table_at s.first_call db)
      → find_row (has_id job.id) (table_at s.first_call db) ≡ some r
      → IsStale job r
      → let o = after_execute f engine handlers lease s job result db b in
        (o.table ≡ table_at s.first_call db) × (o.returned ≢ fine)
  unfolding after_execute schedule_retry dead_letter completed_job failed_job dead_job
  after_execute-stale s job none db b r d e st =
      let (n, same) =
        call_update-stale s.null_text s.first_call (completed_job s.stamped_at job) db r d e
          (IsStale-alike job _ r refl st) in
      (same, reported-missed _ n)
  after_execute-stale s job (some x) db b r d e st =
      let failing =
        call_update-stale s.null_text s.first_call (failed_job x job) db r d e
          (IsStale-alike job _ r refl st) in
      let buried =
        call_update-stale s.null_text s.first_call (dead_job x job) db r d e
          (IsStale-alike job _ r refl st) in
      (
        branch (should_retry f engine handlers lease job x) _ _ _
            (second_update-missed s _ _ _ failing) buried.1,
        λ h. ground arith,
      )

  -- While the handler runs the lease is lost: in the table that the first `UpdateJob` after the
  -- handler writes to, whose identifiers are distinct, the job's row carries a token that is not
  -- the job's. Then, whatever the handler returns and however the store answers, the run leaves
  -- that table as it is, and it does not report success.
  pub stale_run_fenced :
      (s : Surroundings f) (job : Job) (db : Db) (b : Breaker) (r : Row)
      → DistinctBy id_of (table_at s.first_call db)
      → find_row (has_id job.id) (table_at s.first_call db) ≡ some r
      → IsStale job r
      → ((run_claimed f engine handlers lease s job db b).table ≡ table_at s.first_call db)
        × ((run_claimed f engine handlers lease s job db b).returned ≢ fine)
  unfolding run_claimed
  stale_run_fenced s job db b r d e st =
      after_execute-stale s job (execute handlers job) db (s.other_workers b) r d e st
