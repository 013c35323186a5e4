-- ===== src/Reconciler/Passes.antt =====
-- internal/reconciler/reconciler.go: what a pass hands to the worker pool.
use go_task_q.Reconciler.{
  claim_at, hands_out, take_claim, put_back, leaves, Turn, Pass, Config, Recovery, reconcile,
  claim_loop,
}
use go_task_q.Store.Rows.{
  other_error, duplicate_key, invalid_transition, not_found, err, ok, Result, Row, NullText,
}
use go_task_q.Base.{
  ◌||◌, ap, any, List, pos_part, subst, sym, [], refl, str_eq_iff, zero, inr, ◌∙◌, if_both, inl,
  ◌+◌, &&-left, suc, arith, Bool-cases, ◌≤◌, ◌∷◌, true, ◌≢◌, ◌≡◌, length, All, ℕ, String, Bool,
}
use go_task_q.Store.Table.{update_rows, Db}
use go_task_q.Time.{Duration, Time}
use go_task_q.Store.Claim.{claimed_row, claimable}
use go_task_q.Models.{state_eq_sound, pending, Job}
use go_task_q.Store.Create.{has_id}
use mathlib.Core.List.{Memᴰ}
use go_task_q.Store.Unique.{All-update_rows}
use go_task_q.Store.Exclusive.{claimed_row_lem, scan_job-id, claim_next_job-Claimed}
use go_task_q.Store.Picked.{All-mem}

abbrev Fits : ℕ → Pass → Type 0
Fits n p = length p.submitted ≤ n

put_back-Fits : (t : Turn) (job : Job) (n : ℕ) (db : Db) → Fits n (put_back t job db)
unfolding put_back
put_back-Fits t job n db = omega arith

leaves-Fits : (had : Bool) (n claimed : ℕ) (db : Db) → Fits n (leaves had claimed db)
leaves-Fits had n claimed db = omega arith

hands_out-Fits : (job : Job) (n : ℕ) (p : Pass) → Fits n p → Fits (suc n) (hands_out job p)
hands_out-Fits job n p h = ground (arith, h)

take_claim-Fits :
    (t : Turn) (had : Bool) (claimed n : ℕ) (rest : Db → Pass) (o : Result Job × Db)
    → ((db : Db) → Fits n (rest db))
    → Fits (suc n) (take_claim t had claimed rest o)
take_claim-Fits t had claimed n rest (err not_found, db) h = leaves-Fits had (suc n) claimed db
take_claim-Fits t had claimed n rest (err invalid_transition, db) h = omega arith
take_claim-Fits t had claimed n rest (err duplicate_key, db) h = omega arith
take_claim-Fits t had claimed n rest (err other_error, db) h = omega arith
take_claim-Fits t had claimed n rest (ok job, db) h =
    if_both (Fits (suc n)) (t.takes job) (hands_out-Fits job n (rest db) (h db))
      (put_back-Fits t job (suc n) db)

stopped-Fits :
    (had : Bool) (n : ℕ) (db : Db) → Fits n (record { had_work = had; table = db; submitted = [] })
stopped-Fits had n db = omega arith

claim_loop-Fits :
    (null_text : NullText) (lease : Duration) (turns : ℕ → Turn) (had : Bool) (n claimed : ℕ)
    (db : Db)
    → Fits n (claim_loop null_text lease turns had n claimed db)
unfolding claim_loop
claim_loop-Fits null_text lease turns had zero claimed db = leaves-Fits had 0 claimed db
claim_loop-Fits null_text lease turns had (suc n) claimed db =
    if_both (Fits (suc n)) (turns claimed).ctx_done (stopped-Fits had (suc n) db) (
      take_claim-Fits (turns claimed) had claimed n _ _
        (λ db'. claim_loop-Fits null_text lease turns had n (claimed + 1) db'))

-- A pass hands the worker pool at most as many jobs as the batch size, whatever other clients do
-- in the meantime.
pub reconcile-Fits :
    (null_text : NullText) (c : Config) (r : Recovery) (turns : ℕ → Turn) (db : Db)
    → length (reconcile null_text c r turns db).submitted ≤ pos_part c.batch_size
unfolding reconcile
reconcile-Fits null_text c r turns db =
    claim_loop-Fits null_text c.running_lease turns _ (pos_part c.batch_size) 0 _

-- No row with the identifier is pending.
abbrev pub NotPending : String → Db → Type 0
NotPending id db = All (λ r. r.id ≡ id → r.state ≢ pending) db

-- The job is in the table, and not pending.
abbrev pub Settled : String → Db → Type 0
Settled id db = (any (has_id id) db ≡ true) × NotPending id db

-- What others do to the table leaves each job there that is not pending, and not pending: they may
-- add jobs, and write to them.
pub record IsTame (before : Db → Db) : Type 0 where
  pub keeps_away : (id : String) (db : Db) → Settled id db → Settled id (before db)

claimed-present :
    (now : Time) (lease : Duration) (token id id' : String) (db : Db)
    → any (has_id id) (update_rows (has_id id') (claimed_row now lease token) db)
      ≡ any (has_id id) db
unfolding update_rows claimed_row
claimed-present now lease token id id' [] = refl
claimed-present now lease token id id' (r ∷ db) = elim (Bool-cases (has_id id' r)) [
  | inl t ↦ rw t (ap (λ b. has_id id r || b) (claimed-present now lease token id id' db))
  | inr f ↦ rw f (ap (λ b. has_id id r || b) (claimed-present now lease token id id' db))
]

mem-present : (db : Db) (r : Row) → Memᴰ r db → any (has_id r.id) db ≡ true
mem-present [] r m = elim m [ ]
mem-present (s ∷ db) r (Memᴰ.head e) =
    let here : has_id r.id s ≡ true = (str_eq_iff s.id r.id).1 (sym (ap Row.id e)) in rw here
mem-present (s ∷ db) r (Memᴰ.tail m) = ground (arith, mem-present db r m)

claimed-NotPending :
    (now : Time) (lease : Duration) (token id id' : String) (db : Db)
    → NotPending id db
    → NotPending id (update_rows (has_id id') (claimed_row now lease token) db)
claimed-NotPending now lease token id id' db h =
    All-update_rows (λ r. r.id ≡ id → r.state ≢ pending) (has_id id') (claimed_row now lease token)
      db (λ r k same e. unfold claimed_row in cc) h

claimed-own :
    (now : Time) (lease : Duration) (token id : String) (db : Db)
    → NotPending id (update_rows (has_id id) (claimed_row now lease token) db)
unfolding update_rows claimed_row
claimed-own now lease token id [] = tt
claimed-own now lease token id (r ∷ db) = elim (Bool-cases (has_id id r)) [
  | inl t ↦ rw t ((λ same e. cc), claimed-own now lease token id db)
  | inr f ↦ rw f ((λ same e. ground (arith, str_eq_iff r.id id)), claimed-own now lease token id db)
]

pub claimable-pending :
    (locked : String → Bool) (db_now : Time) (r : Row)
    → claimable locked db_now r ≡ true
    → r.state ≡ pending
unfolding claimable
claimable-pending locked db_now r h = state_eq_sound r.state pending (&&-left _ _ (&&-left _ _ h))

-- A claim that succeeds, in a table with a job of the identifier that is not pending.
claim-avoids :
    (null_text : NullText) (lease : Duration) (t : Turn) (id : String) (db : Db) (job : Job)
    → Settled id (t.before_claim db)
    → (claim_at null_text lease t db).0 ≡ ok job
    → (id ≢ job.id) × Settled id (claim_at null_text lease t db).1
claim-avoids null_text lease t id db job h k =
    let c =
      claim_next_job-Claimed null_text t.locked t.db_now t.now lease t.token t.claim_answer
        (t.before_claim db) job k in
    let same : job.id ≡ c.row.id =
      scan_job-id null_text _ job c.scanned ∙ (claimed_row_lem t.now lease c.token c.row).0 in
    (
      (λ e.
          All-mem _ _ h.1 c.mem (sym (e ∙ same))
            (claimable-pending t.locked t.db_now c.row c.eligible)),
      subst (Settled id) (sym c.table) (
        claimed-present t.now lease c.token id c.row.id _ ∙ h.0,
        claimed-NotPending t.now lease c.token id c.row.id _ h.1,
      ),
    )

abbrev Avoids : String → Pass → Type 0
Avoids id p = All (λ (k : Job). id ≢ k.id) p.submitted

take_claim-Avoids :
    (t : Turn) (had : Bool) (claimed : ℕ) (rest : Db → Pass) (id : String) (o : Result Job × Db)
    → ((job : Job) → o.0 ≡ ok job → (id ≢ job.id) × Avoids id (rest o.1))
    → Avoids id (take_claim t had claimed rest o)
unfolding put_back
take_claim-Avoids t had claimed rest id (err not_found, db) h = tt
take_claim-Avoids t had claimed rest id (err invalid_transition, db) h = tt
take_claim-Avoids t had claimed rest id (err duplicate_key, db) h = tt
take_claim-Avoids t had claimed rest id (err other_error, db) h = tt
take_claim-Avoids t had claimed rest id (ok job, db) h =
    if_both (Avoids id) (t.takes job) (h job refl) tt

claim_loop-Avoids :
    (null_text : NullText) (lease : Duration) (turns : ℕ → Turn) (had : Bool) (n claimed : ℕ)
    (id : String) (db : Db)
    → ((i : ℕ) → IsTame (turns i).before_claim)
    → Settled id db
    → Avoids id (claim_loop null_text lease turns had n claimed db)
unfolding claim_loop
claim_loop-Avoids null_text lease turns had zero claimed id db tame h = tt
claim_loop-Avoids null_text lease turns had (suc n) claimed id db tame h =
    if_both (Avoids id) (turns claimed).ctx_done tt (
      take_claim-Avoids (turns claimed) had claimed _ id
        (claim_at null_text lease (turns claimed) db)
        (λ job k.
          let (other, still) =
            claim-avoids null_text lease (turns claimed) id db job
              ((tame claimed).keeps_away id db h) k in
          (other, claim_loop-Avoids null_text lease turns had n (claimed + 1) id _ tame still)))

-- The jobs have different identifiers.
abbrev pub AreApart : List Job → Type 0
AreApart [] = Unit
AreApart (job ∷ rest) = All (λ (k : Job). job.id ≢ k.id) rest × AreApart rest

take_claim-AreApart :
    (t : Turn) (had : Bool) (claimed : ℕ) (rest : Db → Pass) (o : Result Job × Db)
    → ((job : Job) → o.0 ≡ ok job → Avoids job.id (rest o.1) × AreApart (rest o.1).submitted)
    → AreApart (take_claim t had claimed rest o).submitted
unfolding put_back
take_claim-AreApart t had claimed rest (err not_found, db) h = tt
take_claim-AreApart t had claimed rest (err invalid_transition, db) h = tt
take_claim-AreApart t had claimed rest (err duplicate_key, db) h = tt
take_claim-AreApart t had claimed rest (err other_error, db) h = tt
take_claim-AreApart t had claimed rest (ok job, db) h =
    if_both (λ (p : Pass). AreApart p.submitted) (t.takes job) (h job refl) tt

claim-own :
    (null_text : NullText) (lease : Duration) (t : Turn) (db : Db) (job : Job)
    → (claim_at null_text lease t db).0 ≡ ok job
    → Settled job.id (claim_at null_text lease t db).1
claim-own null_text lease t db job k =
    let c =
      claim_next_job-Claimed null_text t.locked t.db_now t.now lease t.token t.claim_answer
        (t.before_claim db) job k in
    let same : job.id ≡ c.row.id =
      scan_job-id null_text _ job c.scanned ∙ (claimed_row_lem t.now lease c.token c.row).0 in
    subst (Settled job.id) (sym c.table) (
      subst
        (λ i.
          Settled i
            (update_rows (has_id c.row.id) (claimed_row t.now lease c.token) (t.before_claim db)))
        (sym same)
        (
          claimed-present t.now lease c.token c.row.id c.row.id _ ∙ mem-present _ c.row c.mem,
          claimed-own t.now lease c.token c.row.id _,
        ))

claim_loop-AreApart :
    (null_text : NullText) (lease : Duration) (turns : ℕ → Turn) (had : Bool) (n claimed : ℕ)
    (db : Db)
    → ((i : ℕ) → IsTame (turns i).before_claim)
    → AreApart (claim_loop null_text lease turns had n claimed db).submitted
unfolding claim_loop
claim_loop-AreApart null_text lease turns had zero claimed db tame = tt
claim_loop-AreApart null_text lease turns had (suc n) claimed db tame =
    if_both (λ (p : Pass). AreApart p.submitted) (turns claimed).ctx_done tt
      (take_claim-AreApart (turns claimed) had claimed _
        (claim_at null_text lease (turns claimed) db)
        (λ job k. (
          claim_loop-Avoids null_text lease turns had n (claimed + 1) job.id _ tame
              (claim-own null_text lease (turns claimed) db job k),
          claim_loop-AreApart null_text lease turns had n (claimed + 1) _ tame,
        )))

-- A pass hands no job to the worker pool twice, whatever the table, the clocks, the connection and
-- the pool do, if other clients make no job of the table pending again that is not pending while the
-- pass runs, and remove none of these. They may enqueue new jobs and write to any job in the meantime.
pub reconcile-AreApart :
    (null_text : NullText) (c : Config) (r : Recovery) (turns : ℕ → Turn) (db : Db)
    → ((i : ℕ) → IsTame (turns i).before_claim)
    → AreApart (reconcile null_text c r turns db).submitted
unfolding reconcile
reconcile-AreApart null_text c r turns db tame =
    claim_loop-AreApart null_text c.running_lease turns _ (pos_part c.batch_size) 0 _ tame
