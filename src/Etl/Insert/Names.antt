-- ===== src/Etl/Insert/Names.antt =====
-- internal/etl/executor.go: the identifiers that are let through hold neither a quote nor a NUL.
use mathlib.Core.List.{Memᴰ}
use mathlib.Core.Bool.{false≢true}
use go_task_q.Etl.{
  ascii_digit, ascii_letter, Text, IsText, Checked, valid, bind-valid, eq_of_valid, not_valid,
}
use go_task_q.Etl.Insert.{
  parse_identifier, sanitize_unqualified, unqualified, valid_identifier_part, valid_runes,
  check_all, first_rune, later_rune,
}
use go_task_q.Base.{
  inr, subst, inl, ltb→lt, ◌∙◌, ◌==◌, refl, length, Bool-cases, &&-left, &&-right, ap, false, arith,
  sym, map, split-single, split, ◌<◌, ◌++◌, true, join, ◌≢◌, [], Bool, ltb, ℕ, all, ◌≡◌, All, ◌∷◌,
  Bytes, List,
}

abbrev pub in_quotes : Bytes → Bytes
in_quotes name = b'"' ∷ (name ++ b'"' ∷ [])

-- Neither a quote nor a NUL.
abbrev pub IsPlain : Bytes → Type 0
IsPlain name = (c : ℕ) → Memᴰ c name → (c ≢ b'"') × (c ≢ 0)

-- What pgx documents of `Sanitize` for such names.
pub record IsSanitizer (sanitize : List Bytes → Bytes) : Type 0 where
  pub quotes :
      (parts : List Bytes)
      → All IsPlain parts
      → sanitize parts ≡ join (b'.' ∷ []) (map in_quotes parts)

module _ (t : Text) (l : IsText t) (sanitize : List Bytes → Bytes) (z : IsSanitizer sanitize) where
  all-mem : (p : ℕ → Bool) (xs : List ℕ) (x : ℕ) → all p xs ≡ true → Memᴰ x xs → p x ≡ true
  all-mem p [] x h m = elim m [ ]
  all-mem p (y ∷ ys) x h (Memᴰ.head e) = ap p e ∙ &&-left _ _ h
  all-mem p (y ∷ ys) x h (Memᴰ.tail m) = all-mem p ys x (&&-right _ _ h) m

  first_later : (r : ℕ) → first_rune t sanitize r ≡ true → later_rune t sanitize r ≡ true
  first_later r h = ground (arith, h)

  valid_runes-later :
      (rs : List ℕ) (r : ℕ)
      → valid_runes t sanitize rs ≡ true
      → Memᴰ r rs
      → later_rune t sanitize r ≡ true
  valid_runes-later [] r h m = elim m [ ]
  valid_runes-later (q ∷ rs) r h (Memᴰ.head e) =
      ap (later_rune t sanitize) e ∙ first_later q (&&-left _ _ h)
  valid_runes-later (q ∷ rs) r h (Memᴰ.tail m) =
      all-mem (later_rune t sanitize) rs r (&&-right (first_rune t sanitize q) _ h) m

  not_later :
      (c : ℕ)
      → c < 128
      → ascii_letter c ≡ false
      → ascii_digit c ≡ false
      → (c == b'_') ≡ false
      → later_rune t sanitize c ≡ false
  not_later c small a d u = rw u (rw (l.letter_ascii c small ∙ a) (l.digit_ascii c small ∙ d))

  excluded :
      (d c : ℕ)
      → ltb d 128 ≡ true
      → ascii_letter d ≡ false
      → ascii_digit d ≡ false
      → (d == b'_') ≡ false
      → (c < 128 → later_rune t sanitize c ≡ true)
      → c ≢ d
  excluded d c small a g u later e = false≢true (
      sym (not_later d (ltb→lt d 128 small) a g u)
      ∙ sym (ap (later_rune t sanitize) e)
      ∙ later (subst (λ x. x < 128) (sym e) (ltb→lt d 128 small)))

  part-IsPlain : (name : Bytes) → valid_identifier_part t sanitize name ≡ true → IsPlain name
  unfolding valid_identifier_part
  part-IsPlain name h c m =
      let later : c < 128 → later_rune t sanitize c ≡ true =
        λ q. valid_runes-later (t.runes name) c (&&-right _ _ h) (l.runes_ascii c name q m) in
      (excluded b'"' c refl refl refl refl later, excluded 0 c refl refl refl refl later)

  all_parts : (ps : List Bytes) → all (valid_identifier_part t sanitize) ps ≡ true → All IsPlain ps
  all_parts [] h = tt
  all_parts (p ∷ ps) h = (
    part-IsPlain p (&&-left _ _ h),
    all_parts ps (&&-right (valid_identifier_part t sanitize p) _ h),
  )

  unqualified-valid :
      (parts : List Bytes) (r : Bytes)
      → unqualified t sanitize parts ≡ valid r
      → (part : Bytes) × (parts ≡ part ∷ []) × (r ≡ sanitize (part ∷ []))
  unqualified-valid [] r h = absurd (not_valid h)
  unqualified-valid (part ∷ []) r h = (part, refl, sym (eq_of_valid h))
  unqualified-valid (part ∷ q ∷ ps) r h = absurd (not_valid h)

  pub parse_identifier-valid :
      (value : Bytes) (parts : List Bytes)
      → parse_identifier t sanitize value ≡ valid parts
      → (parts ≡ split b'.' value) × All IsPlain parts
  unfolding parse_identifier
  parse_identifier-valid value parts h = elim (Bool-cases (ltb 3 (length (split b'.' value)))) [
    | inl many ↦ absurd (not_valid (rw many at h))
    | inr few ↦ elim (Bool-cases (all (valid_identifier_part t sanitize) (split b'.' value))) [
      | inr bad ↦ absurd (not_valid (rw (few, bad) at h))
      | inl good ↦
          let same = sym (eq_of_valid (rw (few, good) at h)) in
          (same, subst (All IsPlain) (sym same) (all_parts (split b'.' value) good))
    ]
  ]

  sanitize_unqualified-valid :
      (column r : Bytes)
      → sanitize_unqualified t sanitize column ≡ valid r
      → (r ≡ in_quotes column) × IsPlain column
  sanitize_unqualified-valid column r h =
      let (identifier, parsed, one) =
        bind-valid (parse_identifier t sanitize column) (unqualified t sanitize) h in
      let (same, plain) = parse_identifier-valid column identifier parsed in
      let (part, single, made) = unqualified-valid identifier r one in
      let name = split-single b'.' column part (sym same ∙ single) in
      let plain_part = (subst (All IsPlain) single plain).0 in
      (
        made ∙ z.quotes (part ∷ []) (plain_part, tt) ∙ ap in_quotes name,
        subst IsPlain name plain_part,
      )

  check_all-valid :
      (f : Bytes → Checked Bytes) (ss rs : List Bytes)
      → ((s r : Bytes) → f s ≡ valid r → (r ≡ in_quotes s) × IsPlain s)
      → check_all f ss ≡ valid rs
      → (rs ≡ map in_quotes ss) × All IsPlain ss
  check_all-valid f [] rs g h = (sym (eq_of_valid h), tt)
  check_all-valid f (s ∷ ss) rs g h =
      let (r, first, next) = bind-valid (f s) _ h in
      let (rest, others, made) = bind-valid (check_all f ss) _ next in
      let (same, plain) = g s r first in
      let (sames, plains) = check_all-valid f ss rest g others in
      (
        sym (eq_of_valid made) ∙ ap (λ x. x ∷ rest) same ∙ ap (λ x. in_quotes s ∷ x) sames,
        (plain, plains),
      )

  pub sanitized-quoted :
      (ss rs : List Bytes)
      → check_all (sanitize_unqualified t sanitize) ss ≡ valid rs
      → (rs ≡ map in_quotes ss) × All IsPlain ss
  sanitized-quoted ss rs =
      check_all-valid (sanitize_unqualified t sanitize) ss rs sanitize_unqualified-valid
