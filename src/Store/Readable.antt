-- ===== src/Store/Readable.antt =====
-- internal/store/store.go: which rows `scanJob` can read.
use go_task_q.Store.Rows.{NullText, Row, Result, ok, err, other_error, scan_job}
use go_task_q.Models.{Job}
use go_task_q.Base.{is_some, ◌||◌, ◌&&◌, Bool, true, false, ◌≡◌, refl, arith}

-- The driver makes a string of NULL, or neither the idempotency key nor the lease token is NULL.
abbrev pub readable : NullText → Row → Bool
readable null_text r = is_some null_text || (is_some r.idempotency_key && is_some r.lease_token)

pub scan_readable :
    (null_text : NullText) (r : Row)
    → readable null_text r ≡ true
    → (job : Job) × (scan_job null_text r ≡ ok job) × (job.id ≡ r.id)
unfolding scan_job
scan_readable null_text r h = go (scan_job null_text r) refl
  where
    go :
        (o : Result Job)
        → scan_job null_text r ≡ o
        → (job : Job) × (scan_job null_text r ≡ ok job) × (job.id ≡ r.id)
    go (ok job) e = (job, e, ground arith)
    go (err x) e = absurd (ground arith)

pub scan_unreadable :
    (null_text : NullText) (r : Row)
    → readable null_text r ≡ false
    → scan_job null_text r ≡ err other_error
unfolding scan_job
scan_unreadable null_text r h = ground arith
