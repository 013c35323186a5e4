-- ===== src/Base/Numerals.antt =====
-- Decimal numbers in texts of bytes.
use Prim.Native.Nat.{ℕ, zero, suc, ◌+◌, ◌-◌, ◌*◌}
use mathlib.Core.Bool.{◌&&◌}
use mathlib.Core.List.{[], ◌∷◌}
use mathlib.Core.Option.{Option, none, some}
use go_task_q.Base.Tests.{if◌then◌else◌, leb, ◌==◌}
use go_task_q.Base.Int.{ℤ, pos, negsuc, max_int64}
use go_task_q.Base.Strings.{Bytes}

-- `strconv.Atoi`: a sign or none, then digits, in 64 bits.
abbrev pub digits : ℕ → Bytes → Option ℕ
digits acc [] = some acc
digits acc (c ∷ s) =
    let rest = digits (acc * 10 + (c - b'0')) s in if leb b'0' c && leb c b'9' then rest else none

abbrev pub number : Bytes → Option ℕ
number [] = none
number (c ∷ s) = digits 0 (c ∷ s)

abbrev pub negated : ℕ → ℤ
negated zero = pos 0
negated (suc n) = negsuc n

abbrev pub in_int64 : Option ℕ → Option ℤ
in_int64 none = none
in_int64 (some n) = if leb n max_int64 then some (pos n) else none

abbrev pub in_int64_negated : Option ℕ → Option ℤ
in_int64_negated none = none
in_int64_negated (some n) = if leb n (max_int64 + 1) then some (negated n) else none

abbrev pub atoi : Bytes → Option ℤ
atoi [] = none
atoi (c ∷ s) =
    if c == b'-'
    then in_int64_negated (number s)
    else if c == b'+'
    then in_int64 (number s)
    else in_int64 (number (c ∷ s))
