-- ===== src/Scheduler/Cron/Fields.antt =====
-- internal/scheduler/scheduler.go: the values that a field of a cron expression names.
use mathlib.Core.Bool.{false≢true}
use go_task_q.Scheduler.{at}
use go_task_q.Scheduler.Cron.{
  Item, mark, parse_part, parse_parts, parse_field, trim_space, bind-some, step_of, span_of,
  single_of, cut,
}
use go_task_q.Scheduler.Cron.Marks.{Selects, IsItem, length-mark, mark-at}
use go_task_q.Base.{
  atoi, refl, ap, zero, ◌∙◌, false, arith, split, replicate, none, ◌==◌, any, drop, has_prefix, inr,
  eq_of_some, subst, ◌↔◌, inl, true, ◌||◌, ◌-◌, codes, pos, bytes_eq, ltb_ℤ, leb_ℤ, suc, Bool-cases,
  length, [], ◌≤◌, some, ◌⊎◌, ◌≡◌, ◌∷◌, Bool, ℤ, List, Option, Bytes, ℕ,
}

-- One of the items names the value.
abbrev pub SomeSelects : ℕ → List Item → ℕ → Type 0
SomeSelects min [] v = ⊥
SomeSelects min (item ∷ items) v = Selects min item v ⊎ SomeSelects min items v

-- The items are what the parts say.
abbrev pub Says : ℕ → ℕ → List Bytes → List Item → Type 0
Says min max [] [] = Unit
Says min max (part ∷ parts) (item ∷ items) =
    (parse_part min max (trim_space part) ≡ some item) × Says min max parts items
Says min max _ _ = ⊥

↔_assoc {ℓ κ μ} :
    {P Q : Type ℓ} {A : Type κ} {B : Type μ} {C : Type ℓ}
    → P ↔ (B ⊎ Q)
    → Q ↔ (A ⊎ C)
    → P ↔ ((A ⊎ B) ⊎ C)
↔_assoc f g = (
  (λ p. elim (f.0 p) [
    | inl b ↦ inl (inr b)
    | inr q ↦ elim (g.0 q) [ inl a ↦ inl (inl a) | inr c ↦ inr c ]
  ]),
  λ s. elim s [
    | inl (inl a) ↦ f.1 (inr (g.1 (inl a)))
    | inl (inr b) ↦ f.1 (inl b)
    | inr c ↦ f.1 (inr (g.1 (inr c)))
  ],
)

none-some : {item : Item} → none ≡ some item → ⊥
none-some h = cc

step_of-IsItem :
    (min max : ℕ) (o : Option ℤ) (item : Item) → step_of o ≡ some item → IsItem min max item
step_of-IsItem min max none item h = cc
step_of-IsItem min max (some n) item h = elim (Bool-cases (leb_ℤ n (pos 0))) [
  | inl t ↦ absurd (none-some (rw t at h))
  | inr f ↦ subst (IsItem min max) (eq_of_some (rw f at h)) (ground (arith, f))
]

span_of-IsItem :
    (min max : ℕ) (a b : Option ℤ) (item : Item)
    → span_of min max a b ≡ some item
    → IsItem min max item
span_of-IsItem min max none b item h = cc
span_of-IsItem min max (some lo) none item h = cc
span_of-IsItem min max (some lo) (some hi) item h =
    elim (Bool-cases (ltb_ℤ lo (pos min) || ltb_ℤ (pos max) hi || ltb_ℤ hi lo)) [
      | inl t ↦ absurd (none-some (rw t at h))
      | inr f ↦ subst (IsItem min max) (eq_of_some (rw f at h)) (ground (arith, f))
    ]

single_of-IsItem :
    (min max : ℕ) (o : Option ℤ) (item : Item)
    → single_of min max o ≡ some item
    → IsItem min max item
single_of-IsItem min max none item h = cc
single_of-IsItem min max (some n) item h =
    elim (Bool-cases (ltb_ℤ n (pos min) || ltb_ℤ (pos max) n)) [
      | inl t ↦ absurd (none-some (rw t at h))
      | inr f ↦ subst (IsItem min max) (eq_of_some (rw f at h)) (ground (arith, f))
    ]

pub parse_part-IsItem :
    (min max : ℕ) (part : Bytes) (item : Item)
    → parse_part min max part ≡ some item
    → IsItem min max item
unfolding parse_part
parse_part-IsItem min max part item h = elim (Bool-cases (bytes_eq part (codes "*"))) [
  | inl t ↦ subst (IsItem min max) (eq_of_some (rw t at h)) tt
  | inr f ↦ elim (Bool-cases (has_prefix (codes "*/") part)) [
    | inl t ↦ step_of-IsItem min max (atoi (drop 2 part)) item (rw (f, t) at h)
    | inr g ↦ elim (Bool-cases (any (λ c. c == b'-') part)) [
      | inl t ↦
          span_of-IsItem min max (atoi (cut b'-' part).0) (atoi (cut b'-' part).1) item
            (rw (f, g, t) at h)
      | inr k ↦ single_of-IsItem min max (atoi part) item (rw (f, g, k) at h)
    ]
  ]
]

-- The items that the parts say, and the array in which they are marked.
pub record Marking (min max : ℕ) (parts : List Bytes) (bits out : List Bool) : Type 0 where
  pub items : List Item
  pub says : Says min max parts items
  pub sized : length out ≡ suc (max - min)
  pub marked :
      (v : ℕ) → v ≤ max - min → (at out v ≡ true) ↔ (SomeSelects min items v ⊎ (at bits v ≡ true))

parse_parts-marks :
    (min max : ℕ) (parts : List Bytes) (bits out : List Bool)
    → min ≤ max
    → length bits ≡ suc (max - min)
    → parse_parts min max parts bits ≡ some out
    → Marking min max parts bits out
unfolding parse_parts
parse_parts-marks min max [] bits out r l h =
    subst (Marking min max [] bits) (eq_of_some h) (record {
      items = [];
      says = tt;
      sized = l;
      marked = λ v q. ((λ t. inr t), λ s. elim s [ inl none_left ↦ absurd none_left | inr t ↦ t ]);
    })
parse_parts-marks min max (part ∷ parts) bits out r l h =
    let (item, e, next) = bind-some (parse_part min max (trim_space part)) _ h in
    let good = parse_part-IsItem min max (trim_space part) item e in
    let rest =
      parse_parts-marks min max parts (mark min max item bits) out r
        (length-mark min max item bits ∙ l) next in
    record {
      items = item ∷ rest.items;
      says = (e, rest.says);
      sized = rest.sized;
      marked = λ v q. ↔_assoc (rest.marked v q) (mark-at min max item bits v r good l q);
    }

at-replicate-false : (n v : ℕ) → at (replicate n false) v ≡ true → ⊥
at-replicate-false zero v h = false≢true h
at-replicate-false (suc n) zero h = false≢true h
at-replicate-false (suc n) (suc v) h = at-replicate-false n v h

length-replicate : (n : ℕ) → length (replicate n false) ≡ n
length-replicate zero = refl
length-replicate (suc n) = ap suc (length-replicate n)

-- What `parseField` accepts: each part between commas says an item within the bounds, and the array
-- has a place for each value from `min` to `max`, which is true exactly when some item names the
-- value: `*` all, `*/n` each n-th from `min` on, `a-b` those from a to b, and a number itself.
pub parse_field-selects :
    (min max : ℕ) (expr : Bytes) (out : List Bool)
    → min ≤ max
    → parse_field min max expr ≡ some out
    → (items : List Item) × Says min max (split b',' expr) items
      × (length out ≡ suc (max - min))
      × ((v : ℕ) → v ≤ max - min → (at out v ≡ true) ↔ SomeSelects min items v)
unfolding parse_field
parse_field-selects min max expr out r h =
    let n = suc (max - min) in
    let m =
      parse_parts-marks min max (split b',' expr) (replicate n false) out r (length-replicate n)
        h in
    (
      m.items,
      m.says,
      m.sized,
      λ v q. (
        (λ t. elim ((m.marked v q).0 t) [ inl s ↦ s | inr u ↦ absurd (at-replicate-false n v u) ]),
        λ s. (m.marked v q).1 (inl s),
      ),
    )
