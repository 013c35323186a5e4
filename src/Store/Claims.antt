-- ===== src/Store/Claims.antt =====
-- internal/store/store.go: the one row that `ClaimNextJob` changes, and how.
use mathlib.Core.List.{Memᴰ}
use go_task_q.Store.Table.{earlier, update_rows, Db}
use go_task_q.Store.Claim.{claim_next_job, claimed_row, claimable}
use go_task_q.Store.Exclusive.{Claimed, claim_next_job-Claimed}
use go_task_q.Store.Rows.{ok, Answer, Row, NullText, scan_job}
use go_task_q.Store.Create.{has_id}
use go_task_q.Store.Picked.{All-mem}
use go_task_q.Store.Unique.{DistinctBy, id_of, Clash}
use go_task_q.Models.{pending, running, Job, state_eq_sound}
use go_task_q.Time.{add, truncate_micros, Duration, Time}
use go_task_q.Base.{
  All-mono, subst, All, ◌++◌, ◌∷◌, [], ◌≡◌, ◌≤◌, ◌⊎◌, some, none, false, true, Bool, String, Option,
  refl, ap, ◌∙◌, sym, ◌+ℤ◌, pos, inl, inr, Bool-cases, str_eq_iff, arith, Option-cases,
}

update_rows-none :
    (id : String) (f : Row → Row) (db : Db)
    → All (λ s. ¬ Clash (some id) (id_of s)) db
    → update_rows (has_id id) f db ≡ db
unfolding update_rows
update_rows-none id f [] a = refl
update_rows-none id f (s ∷ db) (n, a) = elim (Bool-cases (has_id id s)) [
  | inl t ↦ absurd (n (id, refl, ap some ((str_eq_iff s.id id).0 t)))
  | inr e ↦ rw e (ap (◌∷◌ s) (update_rows-none id f db a))
]

-- With distinct identifiers, the write by an identifier changes the row at one place.
update_rows-split :
    (f : Row → Row) (db : Db) (r : Row)
    → DistinctBy id_of db
    → Memᴰ r db
    → (front : Db) × (back : Db) × (db ≡ front ++ r ∷ back)
      × (update_rows (has_id r.id) f db ≡ front ++ f r ∷ back)
unfolding update_rows
update_rows-split f [] r d m = elim m [ ]
update_rows-split f (s ∷ db) r (n, d) (Memᴰ.head e) =
    let same : has_id r.id s ≡ true = (str_eq_iff s.id r.id).1 (sym (ap Row.id e)) in
    let apart = subst (λ (x : Row). All (λ y. ¬ Clash (id_of x) (id_of y)) db) (sym e) n in
    (
      [],
      db,
      ap (λ x. x ∷ db) (sym e),
      rw same (ap (λ l. f s ∷ l) (update_rows-none r.id f db apart) ∙ ap (λ x. f x ∷ db) (sym e)),
    )
update_rows-split f (s ∷ db) r (n, d) (Memᴰ.tail m) = elim (Bool-cases (has_id r.id s)) [
  | inl t ↦ absurd (All-mem _ db n m (r.id, ap some ((str_eq_iff s.id r.id).0 t), refl))
  | inr e ↦
      let (front, back, whole, changed) = update_rows-split f db r d m in
      (s ∷ front, back, ap (◌∷◌ s) whole, rw e (ap (◌∷◌ s) changed))
]

-- Pending, not scheduled for later, and not locked by another transaction.
abbrev pub IsEligible : (String → Bool) → Time → Row → Type 0
IsEligible locked db_now r =
    (r.state ≡ pending)
    × ((r.scheduled_at ≡ none) ⊎ ((t : Time) × (r.scheduled_at ≡ some t) × (t ≤ db_now)))
    × (locked r.id ≡ false)

-- Not after the other; a row without a time comes last.
abbrev pub IsNotAfter : Option Time → Option Time → Type 0
IsNotAfter a b = (b ≡ none) ⊎ ((t : Time) × (u : Time) × (a ≡ some t) × (b ≡ some u) × (t ≤ u))

-- A claim that returns `job` has changed one row of the table, `row`, into `new`.
pub record ClaimsOne (null_text : NullText) (locked : String → Bool) (db_now now : Time)
    (lease : Duration) (given : Option String) (db : Db) (job : Job) (db' : Db) : Type 0 where
  pub front : Db
  pub back : Db
  pub row : Row
  pub token : String
  pub before : db ≡ front ++ row ∷ back
  pub of_caller : given ≡ some token
  pub eligible : IsEligible locked db_now row
  pub earliest :
      All (λ s. IsEligible locked db_now s → IsNotAfter row.scheduled_at s.scheduled_at) db
  pub new : Row
  pub leased : new ≡ record row {
    state = running;
    attempt = row.attempt +ℤ pos 1;
    started_at = some (truncate_micros now);
    lease_expires_at = some (truncate_micros (add now lease));
    lease_token = some token;
    updated_at = truncate_micros now;
  }
  pub after : db' ≡ front ++ new ∷ back
  pub returned : scan_job null_text new ≡ ok job

claimable-IsEligible :
    (locked : String → Bool) (db_now : Time) (r : Row)
    → claimable locked db_now r ≡ true
    → IsEligible locked db_now r
unfolding claimable
claimable-IsEligible locked db_now r h = elim (Option-cases r.scheduled_at) [
  | inl e ↦ (state_eq_sound r.state pending (ground (arith, h)), inl e, ground (arith, h))
  | inr (t, e) ↦ (
    state_eq_sound r.state pending (ground (arith, h)),
    inr (t, e, ground (arith, h, e)),
    ground (arith, h),
  )
]

IsEligible-claimable :
    (locked : String → Bool) (db_now : Time) (r : Row)
    → IsEligible locked db_now r
    → claimable locked db_now r ≡ true
unfolding claimable
IsEligible-claimable locked db_now r (waiting, inl e, free) = rw (waiting, e, free) refl
IsEligible-claimable locked db_now r (waiting, inr (t, e, due), free) =
    rw (waiting, e, free) (ground (arith, due))

earlier-IsNotAfter : (a b : Option Time) → earlier a b ≡ true → IsNotAfter a b
earlier-IsNotAfter a none h = inl refl
earlier-IsNotAfter none (some u) h = cc
earlier-IsNotAfter (some t) (some u) h = inr (t, u, refl, refl, ground (arith, h))

Claimed-ClaimsOne :
    (null_text : NullText) (locked : String → Bool) (db_now now : Time) (lease : Duration)
    (given : Option String) (db : Db) (job : Job) (db' : Db)
    → DistinctBy id_of db
    → Claimed null_text locked db_now now lease given db job db'
    → ClaimsOne null_text locked db_now now lease given db job db'
unfolding claimed_row
Claimed-ClaimsOne null_text locked db_now now lease given db job db' d c =
    let (front, back, whole, changed) =
      update_rows-split (claimed_row now lease c.token) db c.row d c.mem in
    record {
      front = front;
      back = back;
      row = c.row;
      token = c.token;
      before = whole;
      of_caller = c.of_caller;
      eligible = claimable-IsEligible locked db_now c.row c.eligible;
      earliest =
          All-mono _ _ db
            (λ s k ready.
              earlier-IsNotAfter c.row.scheduled_at s.scheduled_at
                (k (IsEligible-claimable locked db_now s ready)))
            c.earliest;
      new = claimed_row now lease c.token c.row;
      leased = refl;
      after = c.table ∙ changed;
      returned = c.scanned;
    }

-- From a table with distinct identifiers, a claim that returns a job has changed exactly one row:
-- one that was pending, not scheduled for later than the database's clock, and not locked by another
-- transaction, and of these rows one with the earliest scheduled time, those without a time last. The row is running then, with one attempt more, the caller's token, a lease from the
-- caller's clock on, and the times of its start and update; its other columns and all other rows are
-- unchanged, and it is the row that is returned.
pub claim_next_job-ClaimsOne :
    (null_text : NullText) (locked : String → Bool) (db_now now : Time) (lease : Duration)
    (token : Option String) (a : Answer) (db : Db) (job : Job)
    → DistinctBy id_of db
    → (claim_next_job null_text locked db_now now lease token a db).0 ≡ ok job
    → ClaimsOne null_text locked db_now now lease token db job
        (claim_next_job null_text locked db_now now lease token a db).1
claim_next_job-ClaimsOne null_text locked db_now now lease token a db job d h =
    Claimed-ClaimsOne null_text locked db_now now lease token db job _ d
      (claim_next_job-Claimed null_text locked db_now now lease token a db job h)
