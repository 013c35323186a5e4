-- ===== src/Store/Picked.antt =====
-- internal/store: what the SELECTs with an order find.
use mathlib.Core.List.{Memᴰ}
use go_task_q.Base.{
  inr, inl, Bool-cases, any, String, ℕ, ◌≡◌, refl, sym, subst, ap, Bool, true, false, Option, none,
  some, [], ◌∷◌, str_eq_iff, if◌then◌else◌, All, All-mono, All-take, take,
}
use go_task_q.Store.Rows.{Row}
use go_task_q.Store.Table.{Db, first_row, better, earlier, insert_sorted, sort_rows}
use go_task_q.Store.Create.{has_id}
use go_task_q.Store.Unique.{DistinctBy, id_of}

abbrev Picks : (Row → Bool) → Db → Option Row → Type 0
Picks p db none = Unit
Picks p db (some r) = Memᴰ r db × (p r ≡ true)

Picks-tail :
    (p : Row → Bool) (s : Row) (db : Db) (o : Option Row) → Picks p db o → Picks p (s ∷ db) o
Picks-tail p s db none h = tt
Picks-tail p s db (some r) (m, h) = (Memᴰ.tail m, h)

Picks-better :
    (p : Row → Bool) (key : Row → Option ℕ) (s : Row) (db : Db) (o : Option Row)
    → p s ≡ true
    → Picks p db o
    → Picks p (s ∷ db) (better key s o)
Picks-better p key s db none e h = (Memᴰ.head refl, e)
Picks-better p key s db (some r) e (m, h) = choose (earlier (key s) (key r))
  where
    choose : (b : Bool) → Picks p (s ∷ db) (if b then some s else some r)
    choose true = (Memᴰ.head refl, e)
    choose false = (Memᴰ.tail m, h)

first_row-Picks :
    (p : Row → Bool) (key : Row → Option ℕ) (db : Db) → Picks p db (first_row p key db)
unfolding first_row
first_row-Picks p key [] = tt
first_row-Picks p key (s ∷ db) = choose (p s) refl (first_row-Picks p key db)
  where
    choose :
        (b : Bool)
        → p s ≡ b
        → Picks p db (first_row p key db)
        → Picks p (s ∷ db) (if b then better key s (first_row p key db) else first_row p key db)
    choose true e h = Picks-better p key s db (first_row p key db) e h
    choose false e h = Picks-tail p s db (first_row p key db) h

-- The first row in the order is a row of the table and satisfies the condition.
pub first_row-mem :
    (p : Row → Bool) (key : Row → Option ℕ) (db : Db) {r : Row}
    → first_row p key db ≡ some r
    → Memᴰ r db × (p r ≡ true)
first_row-mem p key db e = subst (Picks p db) e (first_row-Picks p key db)

pub All-mem {ℓ} : (P : Row → Type ℓ) (db : Db) {r : Row} → All P db → Memᴰ r db → P r
All-mem P [] h m = elim m [ ]
All-mem P (s ∷ db) (h, hs) (Memᴰ.head e) = subst P (sym e) h
All-mem P (s ∷ db) (h, hs) (Memᴰ.tail m) = All-mem P db hs m

-- With distinct identifiers, a row of the table is the only one with its identifier.
pub mem-only :
    (db : Db) (r : Row)
    → DistinctBy id_of db
    → Memᴰ r db
    → All (λ s. has_id r.id s ≡ true → s ≡ r) db
mem-only [] r d m = elim m [ ]
mem-only (s ∷ db) r (n, d) (Memᴰ.head e) = (
  λ _. sym e,
  All-mono _ _ db
      (λ t c ht. absurd (c (r.id, ap id_of (sym e), ap some ((str_eq_iff t.id r.id).0 ht)))) n,
)
mem-only (s ∷ db) r (n, d) (Memᴰ.tail m) = (
  λ h. absurd (All-mem _ db n m (r.id, ap some ((str_eq_iff s.id r.id).0 h), refl)),
  mem-only db r d m,
)

-- A row that a condition of the query picked from the table.
abbrev pub Chosen : (Row → Bool) → Db → Row → Type 0
Chosen p db r = Memᴰ r db × (p r ≡ true)

All-insert_sorted :
    (P : Row → Type 0) (key : Row → Option ℕ) (r : Row) (db : Db)
    → P r
    → All P db
    → All P (insert_sorted key r db)
unfolding insert_sorted
All-insert_sorted P key r [] h hs = (h, tt)
All-insert_sorted P key r (s ∷ db) h (hs, hdb) =
    choose (earlier (key r) (key s)) (All-insert_sorted P key r db h hdb)
  where
    choose :
        (b : Bool)
        → All P (insert_sorted key r db)
        → All P (if b then r ∷ s ∷ db else s ∷ insert_sorted key r db)
    choose true rest = (h, (hs, hdb))
    choose false rest = (hs, rest)

sort_rows-Chosen :
    (p : Row → Bool) (key : Row → Option ℕ) (db : Db) → All (Chosen p db) (sort_rows p key db)
unfolding sort_rows
sort_rows-Chosen p key [] = tt
sort_rows-Chosen p key (s ∷ db) = choose (p s) refl (
    All-mono (Chosen p db) (Chosen p (s ∷ db)) _ (λ t (m, h). (Memᴰ.tail m, h))
      (sort_rows-Chosen p key db))
  where
    choose :
        (b : Bool)
        → p s ≡ b
        → All (Chosen p (s ∷ db)) (sort_rows p key db)
        → All
            (Chosen p (s ∷ db))
            (if b then insert_sorted key s (sort_rows p key db) else sort_rows p key db)
    choose true e rest = All-insert_sorted _ key s (sort_rows p key db) (Memᴰ.head refl, e) rest
    choose false e rest = rest

-- ORDER BY … LIMIT n picks rows of the table that satisfy the condition.
pub take-Chosen :
    (n : ℕ) (p : Row → Bool) (key : Row → Option ℕ) (db : Db)
    → All (Chosen p db) (take n (sort_rows p key db))
take-Chosen n p key db = All-take (Chosen p db) n _ (sort_rows-Chosen p key db)

-- A selected identifier belongs to a row that was chosen.
pub any-Chosen :
    (p : Row → Bool) (db rows : Db) (id : String)
    → All (Chosen p db) rows
    → any (has_id id) rows ≡ true
    → (t : Row) × Chosen p db t × (has_id id t ≡ true)
any-Chosen p db [] id c h = cc
any-Chosen p db (t ∷ rows) id (c, cs) h = elim (Bool-cases (has_id id t)) [
  | inl e ↦ (t, c, e)
  | inr e ↦ any-Chosen p db rows id cs (rw e at h)
]

pub All-intro_mem {ℓ} : (P : Row → Type ℓ) (db : Db) → ((r : Row) → Memᴰ r db → P r) → All P db
All-intro_mem P [] f = tt
All-intro_mem P (r ∷ db) f = (f r (Memᴰ.head refl), All-intro_mem P db (λ s m. f s (Memᴰ.tail m)))
