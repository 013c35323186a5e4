-- ===== src/Scheduler/Cron/Marks.antt =====
-- internal/scheduler/scheduler.go: what the loops of `parseField` mark.
use go_task_q.Scheduler.{at}
use go_task_q.Scheduler.Cron.{Item, every, every_nth, single, span, set_true, mark_each, mark}
use go_task_q.Base.{
  length-map, map, sym, subst, leb→le, Bool-cases, inr, ◌∙◌, refl, inl, leb, [], ap, if_both, zero,
  ◌∷◌, true, ◌↔◌, suc, length, ◌⊎◌, ◌-◌, arith, Bool, ◌*◌, List, ◌≤◌, ◌≡◌, ◌+◌, ◌<◌, ℕ,
}

-- The value of index `v` is one that the item names.
abbrev pub Selects : ℕ → Item → ℕ → Type 0
Selects min every v = Unit
Selects min (every_nth n) v = (j : ℕ) × (v ≡ j * n)
Selects min (span lo hi) v = (lo ≤ min + v) × (min + v ≤ hi)
Selects min (single n) v = min + v ≡ n

length-set_true : (i : ℕ) (bits : List Bool) → length (set_true i bits) ≡ length bits
length-set_true i [] = refl
length-set_true zero (b ∷ bits) = refl
length-set_true (suc i) (b ∷ bits) = ap suc (length-set_true i bits)

at-set_true :
    (i : ℕ) (bits : List Bool) (v : ℕ)
    → i < length bits
    → (at (set_true i bits) v ≡ true) ↔ ((v ≡ i) ⊎ (at bits v ≡ true))
at-set_true i [] v h = absurd (omega (arith, h))
at-set_true zero (b ∷ bits) zero h = ((λ _. inl refl), λ _. refl)
at-set_true zero (b ∷ bits) (suc v) h = ((λ t. inr t), λ s. ground (arith, s))
at-set_true (suc i) (b ∷ bits) zero h = ((λ t. inr t), λ s. ground (arith, s))
at-set_true (suc i) (b ∷ bits) (suc v) h =
    let rest = at-set_true i bits v (omega (arith, h)) in ground (arith, rest)

pub length-mark_each :
    (k from i n last : ℕ) (bits : List Bool) → length (mark_each k from i n last bits) ≡ length bits
unfolding mark_each
length-mark_each zero from i n last bits = refl
length-mark_each (suc k) from i n last bits =
    if_both (λ (x : List Bool). length x ≡ length bits) (leb i last)
      (length-mark_each k from (i + n) n last (set_true (i - from) bits)
        ∙ length-set_true (i - from) bits)
      refl

-- What a loop from `i` marks in steps of `n`.
abbrev Marked : ℕ → ℕ → ℕ → ℕ → ℕ → Type 0
Marked from i n last v = (j : ℕ) × (from + v ≡ i + j * n) × (from + v ≤ last)

Marked-join :
    (from i n last v : ℕ)
    → from ≤ i
    → i ≤ last
    → (v ≡ i - from) ⊎ Marked from (i + n) n last v
    → Marked from i n last v
Marked-join from i n last v h q (inl e) = (0, omega (arith, e, h), omega (arith, e, h, q))
Marked-join from i n last v h q (inr (j, e, r)) = (suc j, omega (arith, e), r)

Marked-split :
    (from i n last v : ℕ) → Marked from i n last v → (v ≡ i - from) ⊎ Marked from (i + n) n last v
Marked-split from i n last v (zero, e, r) = inl (omega (arith, e))
Marked-split from i n last v (suc j, e, r) = inr (j, omega (arith, e), r)

Marked-none : (from i n last v : ℕ) → last < i → Marked from i n last v → ⊥
Marked-none from i n last v h (j, e, q) = omega (arith, h, e, q)

mark_each-at :
    (k from i n last : ℕ) (bits : List Bool) (v : ℕ)
    → 1 ≤ n
    → from ≤ i
    → last < i + k
    → last < from + length bits
    → (at (mark_each k from i n last bits) v ≡ true) ↔ (Marked from i n last v ⊎ (at bits v ≡ true))
unfolding mark_each
mark_each-at zero from i n last bits v p f h b = (
  (λ t. inr t),
  λ s. elim s [ inl m ↦ absurd (Marked-none from i n last v (omega (arith, h)) m) | inr t ↦ t ],
)
mark_each-at (suc k) from i n last bits v p f h b = elim (Bool-cases (leb i last)) [
  | inr out ↦ rw out (
    (λ t. inr t),
    λ s. elim s [
      | inl m ↦ absurd (Marked-none from i n last v (ground (arith, out)) m)
      | inr t ↦ t
    ],
  )
  | inl in_range ↦
      let q = leb→le i last in_range in
      let later =
        mark_each-at k from (i + n) n last (set_true (i - from) bits) v p (omega (arith, f))
          (omega (arith, h, p))
          (subst (λ x. last < from + x) (sym (length-set_true (i - from) bits)) b) in
      let first = at-set_true (i - from) bits v (omega (arith, f, q, b)) in
      rw in_range (
        (λ t. elim (later.0 t) [
          | inl m ↦ inl (Marked-join from i n last v f q (inr m))
          | inr s ↦ elim (first.0 s) [
            | inl e ↦ inl (Marked-join from i n last v f q (inl e))
            | inr u ↦ inr u
          ]
        ]),
        λ s. elim s [
          | inl m ↦ later.1 (elim (Marked-split from i n last v m) [
            | inl e ↦ inr (first.1 (inl e))
            | inr r ↦ inl r
          ])
          | inr u ↦ later.1 (inr (first.1 (inr u)))
        ],
      )
]

abbrev pub IsItem : ℕ → ℕ → Item → Type 0
IsItem min max every = Unit
IsItem min max (every_nth n) = 1 ≤ n
IsItem min max (span lo hi) = (min ≤ lo) × (lo ≤ hi) × (hi ≤ max)
IsItem min max (single n) = (min ≤ n) × (n ≤ max)

at-all_true : (bits : List Bool) (v : ℕ) → v < length bits → at (map (λ b. true) bits) v ≡ true
at-all_true [] v h = absurd (omega (arith, h))
at-all_true (b ∷ bits) zero h = refl
at-all_true (b ∷ bits) (suc v) h = at-all_true bits v (omega (arith, h))

pub length-mark :
    (min max : ℕ) (item : Item) (bits : List Bool) → length (mark min max item bits) ≡ length bits
unfolding mark
length-mark min max every bits = length-map (λ b. true) bits
length-mark min max (every_nth n) bits = length-mark_each (suc (max - min)) 0 0 n (max - min) bits
length-mark min max (span lo hi) bits = length-mark_each (suc (hi - lo)) min lo 1 hi bits
length-mark min max (single n) bits = length-set_true (n - min) bits

↔_left {ℓ κ μ} :
    {A : Type ℓ} {B : Type κ} {C : Type μ} {D : Type μ} → A ↔ (B ⊎ D) → B ↔ C → A ↔ (C ⊎ D)
↔_left h e = (
  (λ a. elim (h.0 a) [ inl b ↦ inl (e.0 b) | inr d ↦ inr d ]),
  λ s. elim s [ inl c ↦ h.1 (inl (e.1 c)) | inr d ↦ h.1 (inr d) ],
)

-- A loop or an assignment of `parseField` marks what the part of the field names, and keeps the rest.
pub mark-at :
    (min max : ℕ) (item : Item) (bits : List Bool) (v : ℕ)
    → min ≤ max
    → IsItem min max item
    → length bits ≡ suc (max - min)
    → v ≤ max - min
    → (at (mark min max item bits) v ≡ true) ↔ (Selects min item v ⊎ (at bits v ≡ true))
unfolding mark
mark-at min max every bits v r w l h =
    ((λ _. inl tt), λ _. at-all_true bits v (omega (arith, l, h)))
mark-at min max (every_nth n) bits v r w l h =
    ↔_left
      (mark_each-at (suc (max - min)) 0 0 n (max - min) bits v w (omega arith) (omega arith)
        (omega (arith, l)))
      ((λ (j, e, q). (j, omega (arith, e))), λ (j, e). (j, omega (arith, e), omega (arith, h)))
mark-at min max (span lo hi) bits v r (a, b, c) l h =
    ↔_left
      (mark_each-at (suc (hi - lo)) min lo 1 hi bits v (omega arith) a (omega (arith, b))
        (omega (arith, l, c, r)))
      ((λ (j, e, q). (omega (arith, e), q)), λ (p, q). (min + v - lo, omega (arith, p), q))
mark-at min max (single n) bits v r (a, b) l h =
    ↔_left (at-set_true (n - min) bits v (omega (arith, a, b, l)))
      ((λ e. omega (arith, e, a)), λ e. omega (arith, e))
