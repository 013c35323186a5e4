-- ===== src/Breaker.antt =====
-- internal/circuitbreaker/circuitbreaker.go. Each method runs under the breaker's mutex, so a
-- method is one step; the clock's reading is an argument. The state is one of the three constants,
-- since nothing else is ever stored in it. The counters start at 0 and stay at or below the
-- thresholds, which are 64-bit, so their increments do not wrap.
pub mod Invariant
pub mod Tripping
pub mod Recovery
use go_task_q.Base.{
  ℕ, suc, ◌+◌, ◌*◌, Bool, true, false, if◌then◌else◌, ℤ, pos, pos_part, neg_part, leb_ℤ, ltb_ℤ,
  List, [], ◌∷◌,
}
use go_task_q.Time.{Time, Duration, second, sub}

pub data State : Type 0 where
  closed open_ half_open : State

pub record Config : Type 0 where
  pub failure_threshold : ℤ
  pub success_threshold : ℤ
  pub open_timeout : Duration
  pub half_open_requests : ℤ

pub record Breaker : Type 0 where
  pub cfg : Config
  pub state : State
  pub failures : ℕ
  pub successes : ℕ
  pub opened_at : Time

-- `if x <= 0 { x = d }`
abbrev pub positive_or : ℤ → ℕ → ℤ
positive_or x d = if leb_ℤ x (pos 0) then pos d else x

unfoldable pub new : Config → Breaker
new c = record {
  cfg = record {
    failure_threshold = positive_or c.failure_threshold 5;
    success_threshold = positive_or c.success_threshold 2;
    open_timeout = positive_or c.open_timeout (60 * second);
    half_open_requests = positive_or c.half_open_requests 1;
  };
  state = closed;
  failures = 0;
  successes = 0;
  opened_at = 0;
}

allow_in : State → Time → Breaker → Breaker × Bool
allow_in closed now b = (b, true)
allow_in open_ now b =
    if leb_ℤ b.cfg.open_timeout (sub now b.opened_at)
    then (record b { state = half_open; failures = 0; successes = 0 }, true)
    else (b, false)
allow_in half_open now b = (b, ltb_ℤ (pos b.successes) b.cfg.half_open_requests)

unfoldable pub allow : Time → Breaker → Breaker × Bool
unfolding allow_in
allow now b = allow_in b.state now b

record_success_in : State → Breaker → Breaker
record_success_in half_open b =
    if leb_ℤ b.cfg.success_threshold (pos (b.successes + 1))
    then record b { state = closed; failures = 0; successes = 0 }
    else record b { successes = b.successes + 1 }
record_success_in closed b = record b { failures = 0 }
record_success_in open_ b = b

unfoldable pub record_success : Breaker → Breaker
unfolding record_success_in
record_success b = record_success_in b.state b

record_failure_in : State → Time → Breaker → Breaker
record_failure_in closed now b =
    if leb_ℤ b.cfg.failure_threshold (pos (b.failures + 1))
    then record b { failures = b.failures + 1; state = open_; opened_at = now }
    else record b { failures = b.failures + 1 }
record_failure_in half_open now b = record b {
  state = open_;
  opened_at = now;
  failures = 0;
  successes = 0;
}
record_failure_in open_ now b = b

unfoldable pub record_failure : Time → Breaker → Breaker
unfolding record_failure_in
record_failure now b = record_failure_in b.state now b

-- The calls that the breaker's users make, in the order in which the mutex admits them.
pub data Call : Type 0 where
  asks succeeds fails : Time → Call

unfoldable pub step : Breaker → Call → Breaker
unfolding allow record_success record_failure
step b (asks now) = (allow now b).0
step b (succeeds now) = record_success b
step b (fails now) = record_failure now b

unfoldable pub run : Breaker → List Call → Breaker
run b [] = b
run b (c ∷ cs) = run (step b c) cs
