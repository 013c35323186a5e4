-- ===== src/Examples/Retries.antt =====
-- internal/retry/backoff.go over whole numbers in place of the floats, which are exact on them.
use go_task_q.Retry.{Float, delay, Config}
use go_task_q.Retry.Bounds.{delay_exponential, delay-le-max, IsExact}
use go_task_q.Base.{◌^◌, leb, ltb, ◌+◌, ◌*◌, pos_part, ◌≡◌, refl, ◌≤ℤ◌, pos, arith, ℕ}
use Prim.Native.Nat.{min}

abbrev pub whole : Float
whole = record {
  Num = ℕ;
  round = pos_part;
  floor = pos;
  times = λ a b. a * b;
  plus = λ a b. a + b;
  less = ltb;
  at_most = leb;
  nought = 0;
  one = 1;
  two = 2;
}

whole-IsExact : IsExact whole
whole-IsExact = record {
  floor_le = λ d x k h. ground arith;
  floor_round = λ d k. refl;
  less_round = λ a b k l. refl;
  times_two = λ a k. refl;
}

abbrev pub an_engine : Config whole
an_engine = record {
  base_delay = pos 100;
  max_delay = pos 1000;
  multiplier = 2;
  max_attempts = pos 3;
  jitter = 0;
}

delay-le-max_example : delay whole an_engine (pos 7) 1 ≤ℤ pos 1000
delay-le-max_example = delay-le-max whole whole-IsExact an_engine 1000 (pos 7) 1 refl (omega arith)

delay_exponential_example : delay whole an_engine (pos 2) 1 ≡ pos (min (100 * 2 ^ 2) 1000)
delay_exponential_example =
    delay_exponential whole whole-IsExact an_engine 100 1000 2 1 refl refl refl refl (omega arith)
      (omega arith)
