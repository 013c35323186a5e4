-- ===== src/Scheduler/Cron.antt =====
-- internal/scheduler/scheduler.go: `parseCron` and `parseField`, on the bytes of an ASCII text. The
-- texts of the errors are left out: `none` is an error.
pub mod Marks
pub mod Fields
pub mod Printed
pub mod RoundTrip
use go_task_q.Scheduler.{CronSchedule}
use go_task_q.Base.{
  refl, ◌≡◌, any, replicate, drop, has_prefix, zero, ◌-◌, pos_part, false, ◌+◌, negsuc, ◌||◌, codes,
  max_int64, leb_ℤ, true, bytes_eq, split, ◌&&◌, ◌*◌, ◌==◌, leb, [], map, suc, ltb_ℤ, pos, ℤ, ◌∷◌,
  none, if◌then◌else◌, Bool, some, List, Option, Bytes, ℕ,
}
use go_task_q.Base.{atoi}

-- `unicode.IsSpace` of an ASCII byte.
abbrev pub is_space : ℕ → Bool
is_space c = c == b' ' || (leb 9 c && leb c 13)

abbrev pub is_nil : Bytes → Bool
is_nil [] = true
is_nil (c ∷ s) = false

-- `strings.TrimSpace`.
abbrev pub trim_left : Bytes → Bytes
trim_left [] = []
trim_left (c ∷ s) = let rest = trim_left s in if is_space c then rest else c ∷ s

abbrev pub trim_right : Bytes → Bytes
trim_right [] = []
trim_right (c ∷ s) = let rest = trim_right s in if is_nil rest && is_space c then [] else c ∷ rest

abbrev pub trim_space : Bytes → Bytes
trim_space s = trim_right (trim_left s)

-- `strings.Fields`: the word that the text begins with, and the words after it.
abbrev pub push : Bytes → List Bytes → List Bytes
push [] words = words
push (c ∷ word) words = (c ∷ word) ∷ words

abbrev pub spaced : Bytes → Bytes × List Bytes
spaced [] = ([], [])
spaced (c ∷ s) =
    let (word, words) = spaced s in if is_space c then ([], push word words) else (c ∷ word, words)

abbrev pub fields : Bytes → List Bytes
fields s = let (word, words) = spaced s in push word words

-- `strings.SplitN` at the first of the bytes, in two.
abbrev pub cut : ℕ → Bytes → Bytes × Bytes
cut sep [] = ([], [])
cut sep (c ∷ s) = let (front, back) = cut sep s in if c == sep then ([], s) else (c ∷ front, back)

module _ {ℓ κ} {A : Type ℓ} {B : Type κ} where
  infixl 5 ◌>>=◌
  abbrev pub ◌>>=◌ : Option A → (A → Option B) → Option B
  none >>= f = none
  some a >>= f = f a

  pub bind-some :
      (m : Option A) (f : A → Option B) {b : B}
      → m >>= f ≡ some b
      → (a : A) × (m ≡ some a) × (f a ≡ some b)
  bind-some none f h = cc
  bind-some (some a) f h = (a, refl, h)

-- What one part of a field says, its numbers checked.
pub data Item : Type 0 where
  every : Item
  every_nth single : ℕ → Item
  span : ℕ → ℕ → Item

abbrev pub step_of : Option ℤ → Option Item
step_of none = none
step_of (some n) = if leb_ℤ n (pos 0) then none else some (every_nth (pos_part n))

abbrev pub set_true : ℕ → List Bool → List Bool
set_true i [] = []
set_true zero (b ∷ bits) = true ∷ bits
set_true (suc i) (b ∷ bits) = b ∷ set_true i bits

-- `for i := ...; i <= last; i += n`, in at most so many rounds; `from` is subtracted from `i`.
unfoldable pub mark_each : ℕ → ℕ → ℕ → ℕ → ℕ → List Bool → List Bool
mark_each zero from i n last bits = bits
mark_each (suc k) from i n last bits =
    let rest = mark_each k from (i + n) n last (set_true (i - from) bits) in
    if leb i last then rest else bits

module _ (min max : ℕ) where
  abbrev pub span_of : Option ℤ → Option ℤ → Option Item
  span_of (some lo) (some hi) =
      if ltb_ℤ lo (pos min) || ltb_ℤ (pos max) hi || ltb_ℤ hi lo
      then none
      else some (span (pos_part lo) (pos_part hi))
  span_of _ _ = none

  abbrev pub span_between : Bytes × Bytes → Option Item
  span_between (lo, hi) = span_of (atoi lo) (atoi hi)

  abbrev pub single_of : Option ℤ → Option Item
  single_of none = none
  single_of (some n) =
      if ltb_ℤ n (pos min) || ltb_ℤ (pos max) n then none else some (single (pos_part n))

  -- The cases of the switch.
  unfoldable pub parse_part : Bytes → Option Item
  parse_part part =
      if bytes_eq part (codes "*")
      then some every
      else if has_prefix (codes "*/") part
      then step_of (atoi (drop 2 part))
      else if any (λ c. c == b'-') part
      then span_between (cut b'-' part)
      else single_of (atoi part)

  -- The loops of the cases.
  unfoldable pub mark : Item → List Bool → List Bool
  unfolding mark_each
  mark every bits = map (λ b. true) bits
  mark (every_nth n) bits = mark_each (suc (max - min)) 0 0 n (max - min) bits
  mark (span lo hi) bits = mark_each (suc (hi - lo)) min lo 1 hi bits
  mark (single n) bits = set_true (n - min) bits

  unfoldable pub parse_parts : List Bytes → List Bool → Option (List Bool)
  unfolding parse_part mark
  parse_parts [] bits = some bits
  parse_parts (part ∷ parts) bits = do
    item ← parse_part (trim_space part)
    parse_parts parts (mark item bits)

  unfoldable pub parse_field : Bytes → Option (List Bool)
  unfolding parse_parts
  parse_field expr = parse_parts (split b',' expr) (replicate (suc (max - min)) false)

abbrev pub parse_fields : List Bytes → Option CronSchedule
parse_fields (m ∷ h ∷ d ∷ mo ∷ w ∷ []) = do
  minutes ← parse_field 0 59 m
  hours ← parse_field 0 23 h
  doms ← parse_field 1 31 d
  months ← parse_field 1 12 mo
  dows ← parse_field 0 6 w
  some (record { minutes = minutes; hours = hours; doms = doms; months = months; dows = dows })
parse_fields _ = none

unfoldable pub parse_cron : Bytes → Option CronSchedule
unfolding parse_field
parse_cron expr = parse_fields (fields expr)
