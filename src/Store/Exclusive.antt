-- ===== src/Store/Exclusive.antt =====
-- internal/store/store.go: what `ClaimNextJob` hands out.
use mathlib.Core.List.{Memᴰ}
use mathlib.Core.Bool.{false≢true}
use go_task_q.Store.Table.{earlier, update_rows, first_row, Db, deliver}
use go_task_q.Store.Claim.{claim_next_job, claimed_row, claimable, scan_claimed, claim_row}
use go_task_q.Store.Rows.{
  eq_of_ok, lost, refused, done, err, ok, Result, Answer, Row, NullText, scan_job,
}
use go_task_q.Base.{
  All, none, str_eq_iff, [], ◌≢◌, ◌∙◌, false, ap, sym, Option, some, subst, ◌∷◌, inr, inl, true,
  refl, Option-cases, arith, ◌≡◌, Bool, String,
}
use go_task_q.Models.{running, Job}
use go_task_q.Time.{Duration, Time}
use go_task_q.Store.Create.{has_id}
use go_task_q.Store.Picked.{mem-only, All-mem, first_row-mem}
use go_task_q.Store.Unique.{IsUnique}
use go_task_q.Store.Follows.Leases.{scan_claimed-db}
use go_task_q.Store.Indexes.{claim_next_job-IsUnique}
use go_task_q.Store.Earliest.{first_row-earliest}

-- What a successful claim has done.
pub record Claimed (null_text : NullText) (locked : String → Bool) (db_now now : Time)
    (lease : Duration) (given : Option String) (db : Db) (job : Job) (db' : Db) : Type 0 where
  pub row : Row
  pub token : String
  pub of_caller : given ≡ some token
  pub mem : Memᴰ row db
  pub eligible : claimable locked db_now row ≡ true
  pub earliest :
      All
        (λ s. claimable locked db_now s ≡ true → earlier row.scheduled_at s.scheduled_at ≡ true)
        db
  pub scanned : scan_job null_text (claimed_row now lease token row) ≡ ok job
  pub table : db' ≡ update_rows (has_id row.id) (claimed_row now lease token) db

pub scan_job-id :
    (null_text : NullText) (r : Row) (job : Job) → scan_job null_text r ≡ ok job → job.id ≡ r.id
unfolding scan_job
scan_job-id null_text r job h = ground arith

deliver-ok :
    {A : Type 0} (a : Answer) (outcome : Result A × Db) (db : Db) (x : A)
    → (deliver a outcome db).0 ≡ ok x
    → deliver a outcome db ≡ outcome
unfolding deliver
deliver-ok done outcome db x h = refl
deliver-ok refused outcome db x h = cc
deliver-ok lost outcome db x h = cc

scan_claimed-ok :
    (null_text : NullText) (o : Result Row × Db) (job : Job)
    → (scan_claimed null_text o).0 ≡ ok job
    → (r : Row) × (o.0 ≡ ok r) × (scan_job null_text r ≡ ok job)
scan_claimed-ok null_text (ok r, db) job h = (r, refl, h)
scan_claimed-ok null_text (err e, db) job h = cc

claim_row-found :
    (locked : String → Bool) (db_now now : Time) (lease : Duration) (token : String) (db : Db)
    (s : Row)
    → first_row (claimable locked db_now) Row.scheduled_at db ≡ some s
    → (claim_row locked db_now now lease token db).0 ≡ ok (claimed_row now lease token s)
unfolding claim_row
claim_row-found locked db_now now lease token db s e = rw (e, claim_row)

claim_row-ok :
    (null_text : NullText) (locked : String → Bool) (db_now now : Time) (lease : Duration)
    (token : String) (db : Db) (r : Row) (job : Job)
    → (claim_row locked db_now now lease token db).0 ≡ ok r
    → scan_job null_text r ≡ ok job
    → Claimed null_text locked db_now now lease
        (some token)
        db
        job
        (claim_row locked db_now now lease token db).1
unfolding claim_row
claim_row-ok null_text locked db_now now lease token db r job h k =
    elim (Option-cases (first_row (claimable locked db_now) Row.scheduled_at db)) [
      | inl e ↦ absurd (ground arith)
      | inr (s, e) ↦
          let (m, c) = first_row-mem (claimable locked db_now) Row.scheduled_at db e in
          record {
            row = s;
            token = token;
            of_caller = refl;
            mem = m;
            eligible = c;
            earliest = first_row-earliest (claimable locked db_now) Row.scheduled_at db s e;
            scanned =
                subst (λ x. scan_job null_text x ≡ ok job)
                  (eq_of_ok (sym h ∙ claim_row-found locked db_now now lease token db s e)) k;
            table = rw (e, claim_row);
          }
    ]

-- What a claim that returns a job has done, in the words of its definitions.
pub claim_next_job-Claimed :
    (null_text : NullText) (locked : String → Bool) (db_now now : Time) (lease : Duration)
    (token : Option String) (a : Answer) (db : Db) (job : Job)
    → (claim_next_job null_text locked db_now now lease token a db).0 ≡ ok job
    → Claimed null_text locked db_now now lease token db job
        (claim_next_job null_text locked db_now now lease token a db).1
unfolding claim_next_job
claim_next_job-Claimed null_text locked db_now now lease none a db job h = absurd (ground arith)
claim_next_job-Claimed null_text locked db_now now lease (some token) a db job h =
    let (r, o, k) = scan_claimed-ok null_text _ job h in
    let same = deliver-ok a (claim_row locked db_now now lease token db) db r o in
    subst (Claimed null_text locked db_now now lease (some token) db job)
      (sym (scan_claimed-db null_text _ ∙ ap (λ (x : Result Row × Db). x.1) same))
      (claim_row-ok null_text locked db_now now lease token db r job
        (sym (ap (λ (x : Result Row × Db). x.0) same) ∙ o) k)

mem-update_rows :
    (p : Row → Bool) (f : Row → Row) (db : Db) (r : Row)
    → Memᴰ r db
    → p r ≡ true
    → Memᴰ (f r) (update_rows p f db)
unfolding update_rows
mem-update_rows p f [] r m h = elim m [ ]
mem-update_rows p f (s ∷ db) r (Memᴰ.head e) h = Memᴰ.head (rw (ap p (sym e) ∙ h) (ap f e))
mem-update_rows p f (s ∷ db) r (Memᴰ.tail m) h = Memᴰ.tail (mem-update_rows p f db r m h)

not_claimable_running :
    (locked : String → Bool) (db_now : Time) (r : Row)
    → r.state ≡ running
    → claimable locked db_now r ≡ false
unfolding claimable
not_claimable_running locked db_now r e = rw e

pub claimed_row_lem :
    (now : Time) (lease : Duration) (token : String) (r : Row)
    → ((claimed_row now lease token r).id ≡ r.id)
      × ((claimed_row now lease token r).state ≡ running)
unfolding claimed_row
claimed_row_lem now lease token r = (refl, refl)

-- From a table with distinct identifiers, no job is handed out twice in a row: of two claims that
-- both return a job, the second carried out on the table that the first one left, whatever their
-- clocks, tokens and leases and whatever rows others lock, the jobs differ.
pub claim_exclusive :
    (null_text : NullText) (locked locked' : String → Bool) (db_now now db_now' now' : Time)
    (lease lease' : Duration) (token token' : Option String) (a a' : Answer) (db : Db)
    (first second : Job)
    → IsUnique db
    → (claim_next_job null_text locked db_now now lease token a db).0 ≡ ok first
    → (claim_next_job null_text locked' db_now' now' lease' token' a'
        (claim_next_job null_text locked db_now now lease token a db).1).0
      ≡ ok second
    → first.id ≢ second.id
claim_exclusive null_text locked locked' db_now now db_now' now' lease lease' token token' a a' db
      first second u h k same =
    let c = claim_next_job-Claimed null_text locked db_now now lease token a db first h in
    let d = claim_next_job-Claimed null_text locked' db_now' now' lease' token' a' _ second k in
    let r = claimed_row now lease c.token c.row in
    let held : Memᴰ r (claim_next_job null_text locked db_now now lease token a db).1 =
      subst (Memᴰ r) (sym c.table) (
        mem-update_rows (has_id c.row.id) _ db c.row c.mem
          ((str_eq_iff c.row.id c.row.id).1 refl)) in
    let same_id : d.row.id ≡ r.id =
      sym (scan_job-id null_text _ second d.scanned ∙ (claimed_row_lem now' lease' d.token d.row).0)
      ∙ sym same
      ∙ scan_job-id null_text r first c.scanned in
    let alike : d.row ≡ r =
      All-mem _ _
        (mem-only _ r (claim_next_job-IsUnique null_text locked db_now now lease token a db u).ids
          held)
        d.mem ((str_eq_iff d.row.id r.id).1 same_id) in
    false≢true (
      sym (not_claimable_running locked' db_now' r (claimed_row_lem now lease c.token c.row).1)
      ∙ sym (ap (claimable locked' db_now') alike)
      ∙ d.eligible)
