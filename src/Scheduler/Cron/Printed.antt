-- ===== src/Scheduler/Cron/Printed.antt =====
-- internal/scheduler/scheduler.go: the fields that are written as crontab(5) writes them are read back.
use Prim.Native.Nat.{min}
use mathlib.Core.List.{append-nil}
use go_task_q.Scheduler.Cron.{
  Item, every, every_nth, single, span, parse_part, trim_space, trim_left, trim_right, is_nil,
  is_space, step_of, span_of, span_between, single_of, cut,
}
use go_task_q.Scheduler.Cron.Marks.{IsItem}
use go_task_q.Base.{
  subst, in_int64, digits, atoi, true, has_prefix, ◌==◌, All-mono, bytes_eq, and_false, All-append,
  any, false, ap, le→leb, refl, ◌∙◌, zero, inr, ltb→lt, ◌*◌, pos, inl, not_equal, if◌then◌else◌,
  arith, ltb, ◌%◌, some, ◌∷◌, [], ◌/◌, max_int64, ◌+◌, Bool-cases, ◌≡◌, ◌++◌, ◌<◌, codes, ◌≤◌, ◌≢◌,
  All, suc, Bytes, ℕ,
}

-- The decimal digits of a number below 10 ^ k, before the rest.
abbrev pub digits_of : ℕ → ℕ → Bytes → Bytes
digits_of zero n rest = rest
digits_of (suc k) n rest =
    let more = digits_of k (n / 10) ((48 + n % 10) ∷ rest) in
    if ltb n 10 then (48 + n) ∷ rest else more

unfoldable pub decimal : ℕ → Bytes
decimal n = digits_of (suc n) n []

abbrev pub render_item : Item → Bytes
render_item every = codes "*"
render_item (every_nth n) = codes "*/" ++ decimal n
render_item (span lo hi) = decimal lo ++ b'-' ∷ decimal hi
render_item (single n) = decimal n

abbrev pub IsDigit : ℕ → Type 0
IsDigit c = (48 ≤ c) × (c ≤ 57)

digits-digit :
    (acc d : ℕ) (rest : Bytes) → d < 10 → digits acc ((48 + d) ∷ rest) ≡ digits (acc * 10 + d) rest
digits-digit acc d rest h =
    rw (le→leb 48 (48 + d) (omega arith), le→leb (48 + d) 57 (omega (arith, h)))
      (ap (λ x. digits x rest) (omega arith))

digits-digits_of : (k n : ℕ) (rest : Bytes) → n < k → digits 0 (digits_of k n rest) ≡ digits n rest
digits-digits_of zero n rest h = absurd (omega (arith, h))
digits-digits_of (suc k) n rest h = elim (Bool-cases (ltb n 10)) [
  | inl t ↦ rw t (digits-digit 0 n rest (ltb→lt n 10 t) ∙ ap (λ x. digits x rest) (omega arith))
  | inr f ↦ rw f (
      digits-digits_of k (n / 10) ((48 + n % 10) ∷ rest) (ground (arith, f, h))
      ∙ digits-digit (n / 10) (n % 10) rest (omega arith)
      ∙ ap (λ x. digits x rest) (omega arith))
]

digits_of-IsDigit : (k n : ℕ) (rest : Bytes) → All IsDigit rest → All IsDigit (digits_of k n rest)
digits_of-IsDigit zero n rest h = h
digits_of-IsDigit (suc k) n rest h = elim (Bool-cases (ltb n 10)) [
  | inl t ↦ rw t ((omega arith, ground (arith, t)), h)
  | inr f ↦
      rw f (digits_of-IsDigit k (n / 10) ((48 + n % 10) ∷ rest) ((omega arith, omega arith), h))
]

decimal-IsDigit : (n : ℕ) → All IsDigit (decimal n)
unfolding decimal
decimal-IsDigit n = digits_of-IsDigit (suc n) n [] tt

digits_of-nonempty : (k n : ℕ) (rest : Bytes) → n < k → digits_of k n rest ≢ []
digits_of-nonempty zero n rest h = absurd (omega (arith, h))
digits_of-nonempty (suc k) n rest h = elim (Bool-cases (ltb n 10)) [
  | inl t ↦ rw t (λ e. cc)
  | inr f ↦ rw f (digits_of-nonempty k (n / 10) ((48 + n % 10) ∷ rest) (ground (arith, f, h)))
]

atoi-digits : (s : Bytes) → s ≢ [] → All IsDigit s → atoi s ≡ in_int64 (digits 0 s)
atoi-digits [] n h = absurd (n refl)
atoi-digits (c ∷ s) n ((a, b), h) =
    rw (not_equal c b'-' (omega (arith, a)), not_equal c b'+' (omega (arith, a))) refl

atoi-decimal : (n : ℕ) → n ≤ max_int64 → atoi (decimal n) ≡ some (pos n)
unfolding decimal
atoi-decimal n h =
    atoi-digits (decimal n) (digits_of-nonempty (suc n) n [] (omega arith)) (decimal-IsDigit n)
    ∙ ap in_int64 (digits-digits_of (suc n) n [] (omega arith))
    ∙ rw (le→leb n max_int64 h) refl

-- A byte of a part: no space, and no comma.
abbrev pub IsMark : ℕ → Type 0
IsMark c = (33 ≤ c) × (c ≢ b',')

decimal-IsMark : (n : ℕ) → All IsMark (decimal n)
decimal-IsMark n =
    All-mono IsDigit IsMark (decimal n) (λ c (a, b). (omega (arith, a), omega (arith, a)))
      (decimal-IsDigit n)

pub render_item-IsMark : (item : Item) → All IsMark (render_item item)
render_item-IsMark every = ((omega arith, omega arith), tt)
render_item-IsMark (every_nth n) =
    ((omega arith, omega arith), ((omega arith, omega arith), decimal-IsMark n))
render_item-IsMark (span lo hi) =
    All-append IsMark (decimal lo) (b'-' ∷ decimal hi) (decimal-IsMark lo)
      ((omega arith, omega arith), decimal-IsMark hi)
render_item-IsMark (single n) = decimal-IsMark n

not_space : (c : ℕ) → 33 ≤ c → is_space c ≡ false
not_space c h = ground (arith, h)

trim_left-marks : (s : Bytes) → All IsMark s → trim_left s ≡ s
trim_left-marks [] h = refl
trim_left-marks (c ∷ s) ((a, b), h) = rw (not_space c a) refl

trim_right-marks : (s : Bytes) → All IsMark s → trim_right s ≡ s
trim_right-marks [] h = refl
trim_right-marks (c ∷ s) ((a, b), h) =
    rw (not_space c a, and_false (is_nil (trim_right s))) (ap (λ x. c ∷ x) (trim_right-marks s h))

pub trim_space-marks : (s : Bytes) → All IsMark s → trim_space s ≡ s
trim_space-marks s h = ap trim_right (trim_left-marks s h) ∙ trim_right-marks s h

no_minus : (s : Bytes) → All IsDigit s → any (λ c. c == b'-') s ≡ false
no_minus [] h = refl
no_minus (c ∷ s) ((a, b), h) = let rest = no_minus s h in ground (arith, a, rest)

minus_between : (s t : Bytes) → any (λ c. c == b'-') (s ++ b'-' ∷ t) ≡ true
minus_between [] t = refl
minus_between (c ∷ s) t = let rest = minus_between s t in ground (arith, rest)

cut-between : (s t : Bytes) → All IsDigit s → cut b'-' (s ++ b'-' ∷ t) ≡ (s, t)
cut-between [] t h = refl
cut-between (c ∷ s) t ((a, b), h) = rw (not_equal c b'-' (omega (arith, a)), cut-between s t h) refl

-- The first two cases of the switch do not take a text that begins with a digit.
abbrev Starless : Bytes → Type 0
Starless s = (bytes_eq s (codes "*") ≡ false) × (has_prefix (codes "*/") s ≡ false)

digit-Starless : (s t : Bytes) → s ≢ [] → All IsDigit s → Starless (s ++ t)
unfolding bytes_eq has_prefix
digit-Starless [] t n h = absurd (n refl)
digit-Starless (c ∷ s) t n ((a, b), h) = (ground (arith, a), ground (arith, a))

-- The numbers of an item fit in 64 bits.
abbrev pub Fits : Item → Type 0
Fits every = Unit
Fits (every_nth n) = n ≤ max_int64
Fits (span lo hi) = (lo ≤ max_int64) × (hi ≤ max_int64)
Fits (single n) = n ≤ max_int64

decimal_nonempty : (n : ℕ) → decimal n ≢ []
unfolding decimal
decimal_nonempty n = digits_of-nonempty (suc n) n [] (omega arith)

step_of-positive : (n : ℕ) → 1 ≤ n → step_of (some (pos n)) ≡ some (every_nth n)
step_of-positive n h = ground (arith, h)

span_of-bounds :
    (min max lo hi : ℕ)
    → min ≤ lo
    → lo ≤ hi
    → hi ≤ max
    → span_of min max (some (pos lo)) (some (pos hi)) ≡ some (span lo hi)
span_of-bounds min max lo hi a b c = ground (arith, a, b, c)

single_of-bounds :
    (min max n : ℕ) → min ≤ n → n ≤ max → single_of min max (some (pos n)) ≡ some (single n)
single_of-bounds min max n a b = ground (arith, a, b)

decimal-Starless : (n : ℕ) → Starless (decimal n)
decimal-Starless n =
    subst Starless (append-nil (decimal n))
      (digit-Starless (decimal n) [] (decimal_nonempty n) (decimal-IsDigit n))

parse_part-span :
    (min max : ℕ) (part : Bytes)
    → Starless part
    → any (λ c. c == b'-') part ≡ true
    → parse_part min max part ≡ span_between min max (cut b'-' part)
unfolding parse_part
parse_part-span min max part (a, b) c = rw (a, b, c) refl

parse_part-single :
    (min max : ℕ) (part : Bytes)
    → Starless part
    → any (λ c. c == b'-') part ≡ false
    → parse_part min max part ≡ single_of min max (atoi part)
unfolding parse_part
parse_part-single min max part (a, b) c = rw (a, b, c) refl

pub parse_part-render :
    (min max : ℕ) (item : Item)
    → IsItem min max item
    → Fits item
    → parse_part min max (render_item item) ≡ some item
unfolding parse_part bytes_eq has_prefix
parse_part-render min max every w f = refl
parse_part-render min max (every_nth n) w f = ap step_of (atoi-decimal n f) ∙ step_of-positive n w
parse_part-render min max (span lo hi) (a, b, c) (f, g) =
    parse_part-span min max (decimal lo ++ b'-' ∷ decimal hi)
      (digit-Starless (decimal lo) (b'-' ∷ decimal hi) (decimal_nonempty lo) (decimal-IsDigit lo))
      (minus_between (decimal lo) (decimal hi))
    ∙ ap (span_between min max) (cut-between (decimal lo) (decimal hi) (decimal-IsDigit lo))
    ∙ rw (atoi-decimal lo f, atoi-decimal hi g) (span_of-bounds min max lo hi a b c)
parse_part-render min max (single n) (a, b) f =
    parse_part-single min max (decimal n) (decimal-Starless n)
      (no_minus (decimal n) (decimal-IsDigit n))
    ∙ ap (single_of min max) (atoi-decimal n f)
    ∙ single_of-bounds min max n a b
