-- ===== src/Breaker/Invariant.antt =====
-- internal/circuitbreaker: what holds of a breaker between two calls.
use go_task_q.Base.{◌≡◌, List, [], ◌∷◌, arith, pos, ◌<ℤ◌, ◌≤ℤ◌}
use go_task_q.Breaker.{
  Breaker, Config, Call, asks, succeeds, fails, closed, half_open, new, step, run,
}

pub record Inv (b : Breaker) : Type 0 where
  pub trips : pos 0 <ℤ b.cfg.failure_threshold
  pub closes : pos 0 <ℤ b.cfg.success_threshold
  pub waits : pos 0 <ℤ b.cfg.open_timeout
  pub probes : pos 0 <ℤ b.cfg.half_open_requests
  pub closed_below :
      b.state ≡ closed → (pos b.failures <ℤ b.cfg.failure_threshold) × (b.successes ≡ 0)
  pub probing_below :
      b.state ≡ half_open → (pos b.successes <ℤ b.cfg.success_threshold) × (b.failures ≡ 0)
  pub open_bounded : pos b.failures ≤ℤ b.cfg.failure_threshold

pub new-Inv : (c : Config) → Inv (new c)
unfolding new
new-Inv c = ground arith

pub step-Inv : (b : Breaker) (c : Call) → Inv b → Inv (step b c)
unfolding step
step-Inv b (asks now) v = ground arith
step-Inv b (succeeds now) v = ground arith
step-Inv b (fails now) v = ground arith

pub run-Inv : (b : Breaker) (cs : List Call) → Inv b → Inv (run b cs)
unfolding run
run-Inv b [] v = v
run-Inv b (c ∷ cs) v = run-Inv (step b c) cs (step-Inv b c v)

-- For every configuration given to `new`, the invalid ones too, and every sequence of calls of
-- `allow`, `record_success` and `record_failure`: all four settings of the breaker are positive, a
-- closed breaker has fewer failures than its failure threshold and no successes, a half-open one has
-- fewer successes than its success threshold and no failures, and the failures of any breaker are at
-- most its failure threshold.
pub run-new-Inv : (c : Config) (cs : List Call) → Inv (run (new c) cs)
run-new-Inv c cs = run-Inv (new c) cs (new-Inv c)
