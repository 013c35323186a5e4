-- ===== src/Store/RoundTrip.antt =====
-- internal/store/store.go: what `GetJob` gives back of what `CreateJob` stored.
use go_task_q.Store.Create.{create_job, get_job, key_taken, has_id, new_row, insert_row}
use go_task_q.Base.{
  inr, eq_of_some, ◌≢◌, inl, refl, ◌∙◌, none, ap, ◌⊎◌, [], ◌∷◌, str_eq_iff, ◌++◌, arith, true,
  if◌then◌else◌, false, ◌≡◌, any, Bool, some, String,
}
use go_task_q.Store.Table.{Db, find_row}
use go_task_q.Store.Rows.{
  NullText, lost, other_error, err, refused, done, Answer, ok, nullable_string, stored, Row,
  scan_text, scan_job,
}
use go_task_q.Time.{is_zero, truncate_micros, Time}
use go_task_q.Models.{Job}

-- The job as the columns keep it: times in whole microseconds, and the times that `CreateJob` sets.
unfoldable pub as_stored : Time → Job → Job
as_stored now job = record job {
  scheduled_at = stored job.scheduled_at;
  started_at = stored job.started_at;
  lease_expires_at = stored job.lease_expires_at;
  completed_at = stored job.completed_at;
  created_at = truncate_micros (if is_zero job.created_at then now else job.created_at);
  updated_at = truncate_micros now;
}

pub find_row-concat :
    (p : Row → Bool) (db : Db) (r : Row)
    → any p db ≡ false
    → p r ≡ true
    → find_row p (db ++ r ∷ []) ≡ some r
unfolding find_row
find_row-concat p [] r a h = rw h
find_row-concat p (s ∷ db) r a h = ground (arith, find_row-concat p db r)

-- A successful INSERT has found neither the identifier nor the key taken.
pub insert_row-ok :
    (r : Row) (db : Db)
    → (insert_row r db).0 ≡ ok tt
    → (any (has_id r.id) db ≡ false)
      × (key_taken r.idempotency_key db ≡ false)
      × ((insert_row r db).1 ≡ db ++ r ∷ [])
unfolding insert_row
insert_row-ok r db h = ground arith

-- The text comes back: it is stored as a text, or NULL is read as the empty string.
abbrev ComesBack : NullText → String → Type 0
ComesBack null_text value = (null_text ≡ some "") ⊎ (value ≢ "")

nullable-scan :
    (null_text : NullText) (value : String)
    → ComesBack null_text value
    → scan_text null_text (nullable_string value) ≡ ok value
nullable-scan none value h = ground (arith, str_eq_iff value "", h)
nullable-scan (some s) value h = elim h [
  | inl e ↦ ground (arith, str_eq_iff value "", eq_of_some e)
  | inr n ↦ ground (arith, str_eq_iff value "", n)
]

scan_job-new_row :
    (null_text : NullText) (now : Time) (job : Job)
    → ComesBack null_text job.idempotency_key
    → ComesBack null_text job.lease_token
    → scan_job null_text (new_row now job) ≡ ok (as_stored now job)
unfolding scan_job new_row as_stored
scan_job-new_row null_text now job k t =
    rw (nullable-scan null_text job.idempotency_key k, nullable-scan null_text job.lease_token t)

scan_null :
    (now : Time) (job : Job)
    → (job.idempotency_key ≡ "") ⊎ (job.lease_token ≡ "")
    → scan_job none (new_row now job) ≡ err other_error
unfolding scan_job new_row
scan_null now job e =
    ground (arith, str_eq_iff job.idempotency_key "", str_eq_iff job.lease_token "")

pub create_job-ok :
    (a : Answer) (now : Time) (job : Job) (db : Db)
    → (create_job a now job db).0 ≡ ok tt
    → (any (has_id job.id) db ≡ false) × ((create_job a now job db).1 ≡ db ++ new_row now job ∷ [])
unfolding create_job
create_job-ok done now job db h =
    let (fresh, free, added) = insert_row-ok (new_row now job) db h in (fresh, added)
create_job-ok refused now job db h = cc
create_job-ok lost now job db h = cc

pub create_job-free :
    (a : Answer) (now : Time) (job : Job) (db : Db)
    → (create_job a now job db).0 ≡ ok tt
    → key_taken (nullable_string job.idempotency_key) db ≡ false
unfolding create_job
create_job-free done now job db h = (insert_row-ok (new_row now job) db h).1
create_job-free refused now job db h = cc
create_job-free lost now job db h = cc

pub find-create_job :
    (a : Answer) (now : Time) (job : Job) (db : Db)
    → (create_job a now job db).0 ≡ ok tt
    → find_row (has_id job.id) (create_job a now job db).1 ≡ some (new_row now job)
find-create_job a now job db h =
    let (fresh, added) = create_job-ok a now job db h in
    ap (find_row (has_id job.id)) added
    ∙ find_row-concat (has_id job.id) db (new_row now job) fresh
        (unfold new_row in (str_eq_iff job.id job.id).1 refl)

-- A job with an idempotency key and a lease token, and any job if the driver scans a NULL text into
-- the empty string: when `CreateJob` has stored it, it is what `GetJob` then returns, with its times
-- cut to microseconds, `created_at` set if it was not, and `updated_at` set.
pub get_job-create_job :
    (null_text : NullText) (a : Answer) (now : Time) (job : Job) (db : Db)
    → (null_text ≡ some "") ⊎ ((job.idempotency_key ≢ "") × (job.lease_token ≢ ""))
    → (create_job a now job db).0 ≡ ok tt
    → get_job null_text true job.id (create_job a now job db).1 ≡ ok (as_stored now job)
unfolding get_job
get_job-create_job null_text a now job db c h = rw (find-create_job a now job db h) (elim c [
  | inl e ↦ scan_job-new_row null_text now job (inl e) (inl e)
  | inr (k, t) ↦ scan_job-new_row null_text now job (inr k) (inr t)
])

-- If instead the driver refuses to scan a NULL text into a string, a stored job with an empty
-- idempotency key or an empty lease token cannot be read back at all: `GetJob` gives an error, and
-- not `ErrJobNotFound`.
pub get_job-create_job_null :
    (a : Answer) (now : Time) (job : Job) (db : Db)
    → (create_job a now job db).0 ≡ ok tt
    → (job.idempotency_key ≡ "") ⊎ (job.lease_token ≡ "")
    → get_job none true job.id (create_job a now job db).1 ≡ err other_error
unfolding get_job
get_job-create_job_null a now job db h e = rw (find-create_job a now job db h) (scan_null now job e)
