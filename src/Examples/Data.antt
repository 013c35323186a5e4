-- ===== src/Examples/Data.antt =====
-- A few jobs and rows of the table.
use go_task_q.Models.{pending, running, Job, Task}
use go_task_q.Store.Rows.{Row}
use go_task_q.Store.Unique.{IsUnique}
use go_task_q.Store.Table.{Db}
use go_task_q.Base.{
  str_eq_iff, refl, ◌≢◌, false, sym, ◌∙◌, ◌≡◌, eq_of_some, str_eq, arith, pos, none, [], some, ◌∷◌,
  String,
}
use go_task_q.Time.{Time}

abbrev pub a_task : Task
a_task = record {
  id = "t";
  name = "mail";
  payload = [];
  retry_count = pos 0;
  max_retries = pos 3;
  timeout = pos 0;
  cron_expression = "";
  queue = "default";
  metadata = [];
}

-- A job that runs, with the lease token `mine`.
abbrev pub a_job : Job
a_job = record {
  id = "a";
  idempotency_key = "key";
  task = a_task;
  state = running;
  attempt = pos 1;
  last_error = "";
  scheduled_at = some 5000;
  started_at = some 6000;
  lease_expires_at = some 9000;
  lease_token = "mine";
  completed_at = none;
  created_at = 4000;
  updated_at = 6000;
  metadata = [];
}

abbrev pub a_row : Row
a_row = record {
  id = "a";
  idempotency_key = some "key";
  task = a_task;
  state = running;
  attempt = pos 1;
  last_error = "";
  scheduled_at = some 5000;
  started_at = some 6000;
  lease_expires_at = some 9000;
  lease_token = some "mine";
  completed_at = none;
  created_at = 4000;
  updated_at = 6000;
  metadata = [];
}

abbrev pub pending_row : String → Time → Row
pending_row id due = record a_row {
  id = id;
  idempotency_key = none;
  state = pending;
  attempt = pos 0;
  scheduled_at = some due;
  started_at = none;
  lease_expires_at = none;
  lease_token = none;
}

-- The job `a` is taken over by another worker.
abbrev pub taken_row : Row
taken_row = record a_row { lease_token = some "other" }

abbrev pub two_rows : Db
two_rows = pending_row "b" 1000 ∷ pending_row "c" 2000 ∷ []

pub differ : (s t : String) → str_eq s t ≡ false → s ≢ t
differ s t h e = ground (arith, str_eq_iff s t)

pub two_rows-IsUnique : IsUnique two_rows
two_rows-IsUnique = record {
  ids = (((λ (k, p, q). differ "b" "c" refl (eq_of_some (p ∙ sym q))), tt), (tt, tt));
  keys = (((λ (k, p, q). cc), tt), (tt, tt));
}

pub one_row-IsUnique : IsUnique (a_row ∷ [])
one_row-IsUnique = record { ids = (tt, tt); keys = (tt, tt) }
