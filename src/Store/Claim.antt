-- ===== src/Store/Claim.antt =====
-- internal/store/store.go: `ClaimNextJob`, one statement. `locked` are the rows that other
-- transactions hold (SKIP LOCKED); `db_now` is the database's clock, `now` the caller's.
use go_task_q.Base.{Bool, true, not, ◌&&◌, Option, none, some, String, leb, pos, ◌+ℤ◌}
use go_task_q.Time.{Time, Duration, add, truncate_micros}
use go_task_q.Models.{pending, running, state_eq, Job}
use go_task_q.Store.Rows.{Row, Result, ok, err, not_found, other_error, Answer, NullText, scan_job}
use go_task_q.Store.Table.{Db, first_row, update_rows, deliver}
use go_task_q.Store.Create.{has_id}

-- `scheduled_at IS NULL OR scheduled_at <= NOW()`
abbrev pub is_due : Time → Option Time → Bool
is_due db_now none = true
is_due db_now (some t) = leb t db_now

unfoldable pub claimable : (String → Bool) → Time → Row → Bool
claimable locked db_now r =
    state_eq r.state pending && is_due db_now r.scheduled_at && not (locked r.id)

unfoldable pub claimed_row : Time → Duration → String → Row → Row
claimed_row now lease token r = record r {
  state = running;
  attempt = r.attempt +ℤ pos 1;
  started_at = some (truncate_micros now);
  lease_expires_at = some (truncate_micros (add now lease));
  lease_token = some token;
  updated_at = truncate_micros now;
}

-- The statement: its row comes back, or no row.
unfoldable pub claim_row : (String → Bool) → Time → Time → Duration → String → Db → Result Row × Db
unfolding claimable claimed_row
claim_row locked db_now now lease token db =
    elim (first_row (claimable locked db_now) Row.scheduled_at db) [
      | none ↦ (err not_found, db)
      | some r ↦ (
        ok (claimed_row now lease token r),
        update_rows (has_id r.id) (claimed_row now lease token) db,
      )
    ]

abbrev pub scan_claimed : NullText → Result Row × Db → Result Job × Db
scan_claimed null_text (ok r, db) = (scan_job null_text r, db)
scan_claimed null_text (err e, db) = (err e, db)

-- `token` is `none` where the system has no randomness to give.
unfoldable pub claim_next_job :
    NullText
    → (String → Bool)
    → Time
    → Time
    → Duration
    → Option String
    → Answer
    → Db
    → Result Job × Db
unfolding claim_row deliver
claim_next_job null_text locked db_now now lease none a db = (err other_error, db)
claim_next_job null_text locked db_now now lease (some token) a db =
    scan_claimed null_text (deliver a (claim_row locked db_now now lease token db) db)
