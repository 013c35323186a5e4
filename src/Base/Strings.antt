-- ===== src/Base/Strings.antt =====
-- Strings as the bytes that the program walks.
use Prim.Native.Nat.{ℕ}
use Prim.Native.Char.{code}
use Prim.Native.String.{String}
use mathlib.Core.Path.{◌≡◌, refl, ap, ◌∙◌}
use mathlib.Core.Logic.{◌≢◌, ◌↔◌, inl, inr}
use mathlib.Core.Bool.{Bool, true, false, ◌&&◌}
use mathlib.Core.List.{List, [], ◌∷◌, ◌++◌}
use native.Mathlib.Omega.{arith}
use go_task_q.Base.Lists.{All}
use go_task_q.Base.Tests.{Bool-cases, if◌then◌else◌, ◌==◌}

-- The bytes of an ASCII text.
abbrev pub codes : String → List ℕ
codes String.[] = []
codes (String.◌∷◌ c s) = code c ∷ codes s

abbrev pub Bytes : Type 0
Bytes = List ℕ

unfoldable pub bytes_eq : Bytes → Bytes → Bool
bytes_eq [] [] = true
bytes_eq (c ∷ s) (d ∷ t) = c == d && bytes_eq s t
bytes_eq _ _ = false

pub bytes_eq_iff : (s t : Bytes) → (bytes_eq s t ≡ true) ↔ (s ≡ t)
unfolding bytes_eq
bytes_eq_iff [] [] = ((λ h. refl), λ h. refl)
bytes_eq_iff [] (d ∷ t) = ((λ h. cc), λ h. cc)
bytes_eq_iff (c ∷ s) [] = ((λ h. cc), λ h. cc)
bytes_eq_iff (c ∷ s) (d ∷ t) =
    let tail = bytes_eq_iff s t in (λ h. ground (arith, h, tail), λ h. ground (arith, h, tail))

-- `strings.Split` at one byte: always at least one part.
abbrev pub first_longer : ℕ → List Bytes → List Bytes
first_longer c [] = (c ∷ []) ∷ []
first_longer c (part ∷ parts) = (c ∷ part) ∷ parts

unfoldable pub split : ℕ → Bytes → List Bytes
split sep [] = [] ∷ []
split sep (c ∷ s) = let rest = split sep s in if c == sep then [] ∷ rest else first_longer c rest

-- `strings.Join`.
abbrev pub join : Bytes → List Bytes → Bytes
join sep [] = []
join sep (s ∷ []) = s
join sep (s ∷ t ∷ ts) = s ++ (sep ++ join sep (t ∷ ts))

unfoldable pub has_prefix : Bytes → Bytes → Bool
has_prefix [] s = true
has_prefix (c ∷ p) [] = false
has_prefix (c ∷ p) (d ∷ s) = c == d && has_prefix p s

pub split_nonempty : (sep : ℕ) (s : Bytes) → split sep s ≡ [] → ⊥
unfolding split
split_nonempty sep [] h = cc
split_nonempty sep (c ∷ s) h = ground (arith, h)

first_longer-single :
    (c : ℕ) (rest : List Bytes) (part : Bytes)
    → (rest ≡ [] → ⊥)
    → first_longer c rest ≡ part ∷ []
    → (p : Bytes) × (rest ≡ p ∷ []) × (part ≡ c ∷ p)
first_longer-single c [] part n h = absurd (n refl)
first_longer-single c (p ∷ []) part n h = (p, refl, cc)
first_longer-single c (p ∷ q ∷ ps) part n h = cc

abbrev parts_tail : List Bytes → List Bytes
parts_tail [] = []
parts_tail (p ∷ ps) = ps

-- A text without the separator is one part, and only such a text is.
pub split-single : (sep : ℕ) (s part : Bytes) → split sep s ≡ part ∷ [] → part ≡ s
unfolding split
split-single sep [] part h = cc
split-single sep (c ∷ s) part h = elim (Bool-cases (c == sep)) [
  | inl t ↦ absurd (split_nonempty sep s (ap parts_tail (rw t at h)))
  | inr f ↦
      let (p, rest, longer) =
        first_longer-single c (split sep s) part (split_nonempty sep s) (rw f at h) in
      longer ∙ ap (λ x. c ∷ x) (split-single sep s p rest)
]

pub not_equal : (c d : ℕ) → c ≢ d → (c == d) ≡ false
not_equal c d n = ground arith

-- A part without the separator is split off.
pub split-append :
    (sep : ℕ) (p s : Bytes) → All (λ c. c ≢ sep) p → split sep (p ++ sep ∷ s) ≡ p ∷ split sep s
unfolding split
split-append sep [] s h = ground arith
split-append sep (c ∷ p) s (n, h) =
    let rest = split-append sep p s h in rw (not_equal c sep n, rest) refl

pub split-plain : (sep : ℕ) (p : Bytes) → All (λ c. c ≢ sep) p → split sep p ≡ p ∷ []
unfolding split
split-plain sep [] h = refl
split-plain sep (c ∷ p) (n, h) = let rest = split-plain sep p h in rw (not_equal c sep n, rest) refl

pub split-join :
    (sep : ℕ) (p : Bytes) (ps : List Bytes)
    → All (All (λ c. c ≢ sep)) (p ∷ ps)
    → split sep (join (sep ∷ []) (p ∷ ps)) ≡ p ∷ ps
split-join sep p [] (h, _) = split-plain sep p h
split-join sep p (q ∷ ps) (h, hs) =
    (split-append sep p (join (sep ∷ []) (q ∷ ps)) h) ∙ ap (λ x. p ∷ x) (split-join sep q ps hs)
