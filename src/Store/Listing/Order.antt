-- ===== src/Store/Listing/Order.antt =====
-- internal/store/store.go: the rows behind a cursor are the rest of the sorted table.
use mathlib.Core.Bool.{false≢true}
use go_task_q.Store.Rows.{Row}
use go_task_q.Store.Table.{Db}
use go_task_q.Store.Unique.{Clash, DistinctBy, id_of}
use go_task_q.Store.Listing.{select_rows, row_before, insert_desc, sort_desc}
use go_task_q.Base.{
  refl, All-mono, ◌∙◌, some, sym, inr, [], inl, ◌≢◌, if_both, All-split, true, false, ap,
  Bool-cases, ◌≡◌, ◌∷◌, All, arith, ◌++◌, Bool, String,
}

-- `<` of the type TEXT is a strict total order.
pub record IsTextOrder (text_before : String → String → Bool) : Type 0 where
  pub irreflexive : (a : String) → text_before a a ≡ false
  pub transitive :
      (a b c : String) → text_before a b ≡ true → text_before b c ≡ true → text_before a c ≡ true
  pub total : (a b : String) → a ≢ b → text_before a b ≡ false → text_before b a ≡ true

module _ (text_before : String → String → Bool) (o : IsTextOrder text_before) where
  abbrev Below : Row → Row → Type 0
  Below r s = row_before text_before r s ≡ true

  row_before_irrefl : (r : Row) → row_before text_before r r ≡ false
  row_before_irrefl r = let i = o.irreflexive r.id in ground (arith, i)

  row_before_trans : (r s t : Row) → Below r s → Below s t → Below r t
  row_before_trans r s t h k = let tr = o.transitive r.id s.id t.id in ground (arith, h, k, tr)

  row_before_total :
      (r s : Row) → ¬ Clash (id_of r) (id_of s) → row_before text_before r s ≡ false → Below s r
  row_before_total r s n h =
      let differ : r.id ≢ s.id = λ e. n (r.id, refl, ap some (sym e)) in
      let t = o.total r.id s.id differ in ground (arith, h, t)

  -- Each row comes before all that follow it.
  abbrev pub IsDesc : Db → Type 0
  IsDesc [] = Unit
  IsDesc (r ∷ rows) = All (λ s. Below s r) rows × IsDesc rows

  All-insert_desc :
      (P : Row → Type 0) (r : Row) (rows : Db)
      → P r
      → All P rows
      → All P (insert_desc text_before r rows)
  unfolding insert_desc
  All-insert_desc P r [] p h = (p, tt)
  All-insert_desc P r (s ∷ rows) p (q, h) =
      if_both (All P) (row_before text_before r s) (q, All-insert_desc P r rows p h) (p, (q, h))

  pub All-sort_desc : (P : Row → Type 0) (db : Db) → All P db → All P (sort_desc text_before db)
  unfolding sort_desc
  All-sort_desc P [] h = tt
  All-sort_desc P (r ∷ db) (p, h) =
      All-insert_desc P r (sort_desc text_before db) p (All-sort_desc P db h)

  insert_desc-IsDesc :
      (r : Row) (rows : Db)
      → All (λ s. ¬ Clash (id_of r) (id_of s)) rows
      → IsDesc rows
      → IsDesc (insert_desc text_before r rows)
  unfolding insert_desc
  insert_desc-IsDesc r [] n d = (tt, tt)
  insert_desc-IsDesc r (s ∷ rows) (n, ns) (a, d) = elim (Bool-cases (row_before text_before r s)) [
    | inl t ↦ rw t (All-insert_desc (λ u. Below u s) r rows t a, insert_desc-IsDesc r rows ns d)
    | inr f ↦
        let first = row_before_total r s n f in
        rw f (
          (
            first,
            All-mono (λ u. Below u s) (λ u. Below u r) rows (λ u b. row_before_trans u s r b first)
                a,
          ),
          (a, d),
        )
  ]

  pub sort_desc-IsDesc : (db : Db) → DistinctBy id_of db → IsDesc (sort_desc text_before db)
  unfolding sort_desc
  sort_desc-IsDesc [] d = tt
  sort_desc-IsDesc (r ∷ db) (n, d) =
      insert_desc-IsDesc r (sort_desc text_before db)
        (All-sort_desc (λ s. ¬ Clash (id_of r) (id_of s)) db n) (sort_desc-IsDesc db d)

  pub All-select_rows :
      (P : Row → Type 0) (p : Row → Bool) (rows : Db) → All P rows → All P (select_rows p rows)
  All-select_rows P p [] h = tt
  All-select_rows P p (r ∷ rows) (q, h) =
      let rest = All-select_rows P p rows h in if_both (All P) (p r) (q, rest) rest

  pub select_rows-IsDesc : (p : Row → Bool) (rows : Db) → IsDesc rows → IsDesc (select_rows p rows)
  select_rows-IsDesc p [] d = tt
  select_rows-IsDesc p (r ∷ rows) (a, d) =
      let rest = select_rows-IsDesc p rows d in
      if_both IsDesc (p r) (All-select_rows (λ s. Below s r) p rows a, rest) rest

  select_rows-All :
      (x : Row) (rows : Db)
      → All (λ s. Below s x) rows
      → select_rows (λ r. row_before text_before r x) rows ≡ rows
  select_rows-All x [] h = refl
  select_rows-All x (r ∷ rows) (p, h) = rw p (ap (λ s. r ∷ s) (select_rows-All x rows h))

  not-Below : (r x : Row) → Below x r → row_before text_before r x ≡ false
  not-Below r x h = elim (Bool-cases (row_before text_before r x)) [
    | inl t ↦ absurd (false≢true (sym (row_before_irrefl r) ∙ row_before_trans r x r t h))
    | inr f ↦ f
  ]

  -- Of a sorted list, the rows below one of them are those behind it.
  pub select_rows-behind :
      (front : Db) (x : Row) (rest : Db)
      → IsDesc (front ++ x ∷ rest)
      → select_rows (λ r. row_before text_before r x) (front ++ x ∷ rest) ≡ rest
  select_rows-behind [] x rest (a, d) = rw (row_before_irrefl x) (select_rows-All x rest a)
  select_rows-behind (r ∷ front) x rest (a, d) =
      let (_, (b, _)) = All-split (λ s. Below s r) front (x ∷ rest) a in
      rw (not-Below r x b) (select_rows-behind front x rest d)
