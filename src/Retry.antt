-- ===== src/Retry.antt =====
-- internal/retry/backoff.go. The 64-bit floats that the engine computes with are a parameter of
-- the model, `Float`: the numbers that arise, without the NaN.
pub mod Bounds
use go_task_q.Breaker.{positive_or}
use go_task_q.Time.{second, Duration}
use go_task_q.Base.{
  true, leb_ℤ, ◌&&◌, pos, zero, false, ltb_ℤ, if◌then◌else◌, ◌*◌, pos_part, Bool, suc, ℕ, ℤ,
}

-- `round` is the conversion from a duration, `floor` the one to a duration; `less` and `at_most`
-- are `<` and `<=`.
pub record Float : Type 1 where
  pub Num : Type 0
  pub round : Duration → Num
  pub floor : Num → Duration
  pub times : Num → Num → Num
  pub plus : Num → Num → Num
  pub less : Num → Num → Bool
  pub at_most : Num → Num → Bool
  pub nought : Num
  pub one : Num
  pub two : Num

pub record Config (f : Float) : Type 0 where
  pub base_delay : Duration
  pub max_delay : Duration
  pub multiplier : f.Num
  pub max_attempts : ℤ
  pub jitter : f.Num

module _ (f : Float) where
  open f use {Num, round, floor, times, plus, less, at_most, nought, one, two}

  abbrev clamped_jitter : Num → Num
  clamped_jitter j =
      let low = if less j nought then nought else j in if less one low then one else low

  unfoldable pub new_engine : Config f → Config f
  new_engine c =
      let base = positive_or c.base_delay second in
      let longest = positive_or c.max_delay (30 * second) in
      record {
        base_delay = base;
        max_delay = if ltb_ℤ longest base then base else longest;
        multiplier = if at_most c.multiplier one then two else c.multiplier;
        max_attempts = c.max_attempts;
        jitter = clamped_jitter c.jitter;
      }

  -- `if delay > float64(MaxDelay) { delay = float64(MaxDelay) }`
  abbrev pub capped : Config f → Num → Num
  capped c d = if less (round c.max_delay) d then round c.max_delay else d

  -- The loop, over the rounds left; it breaks when the delay passes the maximum.
  unfoldable pub grow : Config f → ℕ → Num → Num
  grow c zero d = d
  grow c (suc n) d =
      let next = times d c.multiplier in
      let rest = grow c n next in if less (round c.max_delay) next then round c.max_delay else rest

  abbrev pub jittered : Config f → Num → Num → Num
  jittered c random d =
      if less nought c.jitter then capped c (plus d (times (times d c.jitter) random)) else d

  -- `random` is what `rand.Float64()` gives.
  unfoldable pub delay : Config f → ℤ → Num → Duration
  unfolding grow
  delay c attempt random =
      floor (jittered c random (capped c (grow c (pos_part attempt) (round c.base_delay))))

  -- `permanent` is `errors.Is(err, ErrNoRetry)`.
  unfoldable pub should_retry : Config f → ℤ → Bool → Bool
  should_retry c attempt permanent =
      if permanent
      then false
      else if ltb_ℤ (pos 0) c.max_attempts && leb_ℤ c.max_attempts attempt
      then false
      else true
