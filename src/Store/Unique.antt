-- ===== src/Store/Unique.antt =====
-- internal/store: the primary key and the unique index on idempotency keys, as an invariant of
-- the table that every operation keeps.
use go_task_q.Base.{
  ◌≡◌, refl, sym, subst, All-intro, ap, ◌∙◌, inl, inr, Bool, true, false, Option, none, some, [],
  ◌∷◌, ◌++◌, String, str_eq_iff, any, if◌then◌else◌, arith, All, All-append, All-mono, All-not_any,
  Bool-cases, eq_of_some, eq_of_some, sym, subst, All-intro,
}
use go_task_q.Store.Rows.{Row}
use go_task_q.Store.Table.{Db, find_row, update_rows}
use go_task_q.Store.Create.{has_id, has_key, key_taken}

abbrev pub Clash : Option String → Option String → Type 0
Clash a b = (k : String) × (a ≡ some k) × (b ≡ some k)

-- No two rows have the same key; a NULL is no key.
abbrev pub DistinctBy : (Row → Option String) → Db → Type 0
DistinctBy key [] = Unit
DistinctBy key (r ∷ db) = All (λ s. ¬ Clash (key r) (key s)) db × DistinctBy key db

abbrev pub id_of : Row → Option String
id_of r = some r.id

pub record IsUnique (db : Db) : Type 0 where
  pub ids : DistinctBy id_of db
  pub keys : DistinctBy Row.idempotency_key db

DistinctBy-concat :
    (key : Row → Option String) (db : Db) (r : Row)
    → DistinctBy key db
    → All (λ s. ¬ Clash (key s) (key r)) db
    → DistinctBy key (db ++ r ∷ [])
DistinctBy-concat key [] r d a = (tt, tt)
DistinctBy-concat key (s ∷ db) r (h, d) (c, a) =
    (All-append _ db (r ∷ []) h (c, tt), DistinctBy-concat key db r d a)

pub All-update_rows :
    (P : Row → Type 0) (p : Row → Bool) (f : Row → Row) (db : Db)
    → ((r : Row) → P r → P (f r))
    → All P db
    → All P (update_rows p f db)
unfolding update_rows
All-update_rows P p f [] keep h = tt
All-update_rows P p f (r ∷ db) keep (h, hs) = (one (p r), All-update_rows P p f db keep hs)
  where
    one : (b : Bool) → P (if b then f r else r)
    one true = keep r h
    one false = h

key-cond :
    (key : Row → Option String) (f : Row → Row) (b : Bool) (r : Row)
    → key (f r) ≡ key r
    → key (if b then f r else r) ≡ key r
key-cond key f true r e = e
key-cond key f false r e = refl

pub DistinctBy-update_rows :
    (key : Row → Option String) (p : Row → Bool) (f : Row → Row) (db : Db)
    → ((r : Row) → key (f r) ≡ key r)
    → DistinctBy key db
    → DistinctBy key (update_rows p f db)
unfolding update_rows
DistinctBy-update_rows key p f [] same d = tt
DistinctBy-update_rows key p f (r ∷ db) same (h, d) = (
  subst (λ k. All (λ s. ¬ Clash k (key s)) (update_rows p f db))
      (sym (key-cond key f (p r) r (same r)))
      (All-update_rows (λ s. ¬ Clash (key r) (key s)) p f db
        (λ s n (k, a, b). n (k, a, sym (same s) ∙ b)) h),
  DistinctBy-update_rows key p f db same d,
)

-- An UPDATE that sets neither column keeps both indexes.
pub IsUnique-update_rows :
    (p : Row → Bool) (f : Row → Row) (db : Db)
    → ((r : Row) → (f r).id ≡ r.id)
    → ((r : Row) → (f r).idempotency_key ≡ r.idempotency_key)
    → IsUnique db
    → IsUnique (update_rows p f db)
IsUnique-update_rows p f db i k u = record {
  ids = DistinctBy-update_rows id_of p f db (λ r. ap some (i r)) u.ids;
  keys = DistinctBy-update_rows Row.idempotency_key p f db k u.keys;
}

not-Clash_id : (r s : Row) → has_id r.id s ≡ false → ¬ Clash (id_of s) (id_of r)
not-Clash_id r s h (k, a, b) = ground (arith, str_eq_iff s.id r.id)

not-Clash_key :
    (r s : Row) (key : String)
    → r.idempotency_key ≡ some key
    → has_key key s ≡ false
    → ¬ Clash s.idempotency_key r.idempotency_key
not-Clash_key r s key e h (k, a, b) = ground (arith, str_eq_iff k key)

keys-insert :
    (db : Db) (r : Row) (o : Option String)
    → r.idempotency_key ≡ o
    → key_taken o db ≡ false
    → All (λ s. ¬ Clash s.idempotency_key r.idempotency_key) db
keys-insert db r none e h = All-intro _ db λ s (k, a, b). cc
keys-insert db r (some key) e h =
    All-mono _ _ db (λ s. not-Clash_key r s key e) (All-not_any (has_key key) db h)

-- A row whose identifier and key are not taken may be added.
pub IsUnique-concat :
    (db : Db) (r : Row)
    → any (has_id r.id) db ≡ false
    → key_taken r.idempotency_key db ≡ false
    → IsUnique db
    → IsUnique (db ++ r ∷ [])
IsUnique-concat db r i k u = record {
  ids =
      DistinctBy-concat id_of db r u.ids
        (All-mono _ _ db (λ s. not-Clash_id r s) (All-not_any (has_id r.id) db i));
  keys = DistinctBy-concat Row.idempotency_key db r u.keys (keys-insert db r _ refl k);
}

find_row-head : (p : Row → Bool) (s : Row) (db : Db) → p s ≡ true → find_row p (s ∷ db) ≡ some s
unfolding find_row
find_row-head p s db h = rw h

find_row-tail :
    (p : Row → Bool) (s : Row) (db : Db) → p s ≡ false → find_row p (s ∷ db) ≡ find_row p db
unfolding find_row
find_row-tail p s db h = rw h

has_id-eq : (id : String) (r : Row) → has_id id r ≡ true → id_of r ≡ some id
has_id-eq id r h = ap some ((str_eq_iff r.id id).0 h)

-- What a SELECT by identifier finds is the only row with it.
pub find_row-only :
    (id : String) (db : Db) (r : Row)
    → DistinctBy id_of db
    → find_row (has_id id) db ≡ some r
    → All (λ s. has_id id s ≡ true → s ≡ r) db
find_row-only id [] r d e = tt
find_row-only id (s ∷ db) r (n, d) e = elim (Bool-cases (has_id id s)) [
  | inl h ↦ (
    λ _. eq_of_some (sym (find_row-head (has_id id) s db h) ∙ e),
    All-mono _ _ db (λ t c ht. absurd (c (id, has_id-eq id s h, has_id-eq id t ht))) n,
  )
  | inr h ↦ (λ t. cc, find_row-only id db r d (sym (find_row-tail (has_id id) s db h) ∙ e))
]

-- What a SELECT finds satisfies its condition.
pub find_row-holds : (p : Row → Bool) (db : Db) (r : Row) → find_row p db ≡ some r → p r ≡ true
find_row-holds p [] r e = unfold find_row in cc
find_row-holds p (s ∷ db) r e = elim (Bool-cases (p s)) [
  | inl h ↦ subst (λ x. p x ≡ true) (eq_of_some (sym (find_row-head p s db h) ∙ e)) h
  | inr h ↦ find_row-holds p db r (sym (find_row-tail p s db h) ∙ e)
]
