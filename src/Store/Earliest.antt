-- ===== src/Store/Earliest.antt =====
-- internal/store/store.go: ORDER BY … ASC NULLS LAST LIMIT 1 finds a row that no other precedes.
use go_task_q.Store.Table.{Db, first_row, better, earlier}
use go_task_q.Store.Rows.{Row}
use go_task_q.Base.{
  refl, All, All-mono, Bool, Bool-cases, Option, none, some, inl, inr, true, false, ◌≡◌, ℕ, ◌∷◌, [],
  subst, sym, ◌∙◌, arith,
}
use mathlib.Core.Bool.{false≢true}

-- The row comes before all rows that satisfy the condition, or none does.
abbrev Least : (Row → Bool) → (Row → Option ℕ) → Db → Option Row → Type 0
Least p key db none = All (λ s. p s ≡ false) db
Least p key db (some r) = All (λ s. p s ≡ true → earlier (key r) (key s) ≡ true) db

earlier_refl : (a : Option ℕ) → earlier a a ≡ true
earlier_refl none = refl
earlier_refl (some n) = ground arith

earlier_trans : (a b c : Option ℕ) → earlier a b ≡ true → earlier b c ≡ true → earlier a c ≡ true
earlier_trans none none c h k = k
earlier_trans none (some m) c h k = cc
earlier_trans (some n) b none h k = refl
earlier_trans (some n) none (some o) h k = cc
earlier_trans (some n) (some m) (some o) h k = ground (arith, h, k)

earlier_total : (a b : Option ℕ) → earlier a b ≡ false → earlier b a ≡ true
earlier_total none none h = cc
earlier_total none (some m) h = refl
earlier_total (some n) none h = cc
earlier_total (some n) (some m) h = ground (arith, h)

better-Least :
    (p : Row → Bool) (key : Row → Option ℕ) (s : Row) (db : Db) (o : Option Row)
    → Least p key db o
    → Least p key (s ∷ db) (better key s o)
better-Least p key s db none h =
    ((λ t. earlier_refl (key s)), All-mono _ _ db (λ x f t. absurd (false≢true (sym f ∙ t))) h)
better-Least p key s db (some r) h = elim (Bool-cases (earlier (key s) (key r))) [
  | inl t ↦ rw t (
    (λ u. earlier_refl (key s)),
    All-mono _ _ db (λ x k u. earlier_trans (key s) (key r) (key x) t (k u)) h,
  )
  | inr f ↦ rw f ((λ u. earlier_total (key s) (key r) f), h)
]

skip-Least :
    (p : Row → Bool) (key : Row → Option ℕ) (s : Row) (db : Db) (o : Option Row)
    → p s ≡ false
    → Least p key db o
    → Least p key (s ∷ db) o
skip-Least p key s db none f h = (f, h)
skip-Least p key s db (some r) f h = ((λ t. absurd (false≢true (sym f ∙ t))), h)

first_row-Least :
    (p : Row → Bool) (key : Row → Option ℕ) (db : Db) → Least p key db (first_row p key db)
unfolding first_row
first_row-Least p key [] = tt
first_row-Least p key (s ∷ db) =
    let rest = first_row-Least p key db in
    elim (Bool-cases (p s)) [
      | inl t ↦ rw t (better-Least p key s db (first_row p key db) rest)
      | inr f ↦ rw f (skip-Least p key s db (first_row p key db) f rest)
    ]

pub first_row-earliest :
    (p : Row → Bool) (key : Row → Option ℕ) (db : Db) (r : Row)
    → first_row p key db ≡ some r
    → All (λ s. p s ≡ true → earlier (key r) (key s) ≡ true) db
first_row-earliest p key db r e = subst (Least p key db) e (first_row-Least p key db)
