-- ===== src/Time.antt =====
-- Go's `time` as the program uses it. A `Time` counts nanoseconds from Go's zero time, so `IsZero`
-- is a test for 0; a `Duration` is a signed count of nanoseconds in 64 bits.
use go_task_q.Base.{
  ℕ, ◌+◌, ◌-◌, ◌*◌, ◌/◌, ◌≤◌, ◌≡◌, arith, Bool, ltb, leb, ◌==◌, if◌then◌else◌, ℤ, pos, negsuc,
  pos_part, neg_part, leb_ℤ, max_int64,
}

abbrev pub Time : Type 0
Time = ℕ

abbrev pub Duration : Type 0
Duration = ℤ

abbrev pub nanosecond : ℕ
nanosecond = 1

abbrev pub microsecond : ℕ
microsecond = 1000

abbrev pub millisecond : ℕ
millisecond = 1000000

abbrev pub second : ℕ
second = 1000000000

abbrev pub minute : ℕ
minute = 60000000000

-- `t.Add(d)`; a time before the zero time is not represented and reads as the zero time.
abbrev pub add : Time → Duration → Time
add t d = t + pos_part d - neg_part d

-- `t.Sub(u)`, which saturates at the ends of a 64-bit integer.
unfoldable pub sub : Time → Time → Duration
sub t u =
    if leb u t
    then pos (if leb (t - u) max_int64 then t - u else max_int64)
    else negsuc (if leb (u - t - 1) max_int64 then u - t - 1 else max_int64)

-- `t.Before(u)` and `t.After(u)`.
abbrev pub before : Time → Time → Bool
before t u = ltb t u

abbrev pub after : Time → Time → Bool
after t u = ltb u t

abbrev pub is_zero : Time → Bool
is_zero t = t == 0

-- A TIMESTAMPTZ column keeps whole microseconds: the driver truncates the nanoseconds.
abbrev pub truncate_micros : Time → Time
truncate_micros t = t / microsecond * microsecond

-- A difference reaches a 64-bit duration exactly when the clock has advanced by it.
pub sub_ge_iff : (t u d : ℕ) → d ≤ max_int64 → u ≤ t → leb_ℤ (pos d) (sub t u) ≡ leb (u + d) t
unfolding sub
sub_ge_iff t u d h k = ground arith
