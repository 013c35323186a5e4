-- ===== src/Reconciler/Settings.antt =====
-- internal/reconciler/reconciler.go: the settings as `New` leaves them.
use go_task_q.Reconciler.{Config, new, next_interval}
use go_task_q.Base.{
  inr, ◌*◌, inl, if_both, Bool-cases, ◌<◌, leb_ℤ, ltb_ℤ, if◌then◌else◌, ℕ, arith, ℤ, false, ◌≤ℤ◌,
  true, ◌<ℤ◌, pos, Bool,
}
use go_task_q.Time.{minute}
use go_task_q.Breaker.{positive_or}

positive_or-positive : (x : ℤ) (d : ℕ) → 0 < d → pos 0 <ℤ positive_or x d
positive_or-positive x d h = elim (Bool-cases (leb_ℤ x (pos 0))) [
  | inl t ↦ rw t (omega (arith, h))
  | inr f ↦ rw f (ground (arith, f))
]

at_least : (a b : ℤ) → a ≤ℤ (if ltb_ℤ b a then a else b)
at_least a b = elim (Bool-cases (ltb_ℤ b a)) [
  | inl t ↦ rw t (omega arith)
  | inr f ↦ rw f (ground (arith, f))
]

longer-positive : (a b : ℤ) → pos 0 <ℤ a → a ≤ℤ b → pos 0 <ℤ b
longer-positive a b h k = omega (arith, h, k)

-- Whatever settings `New` is given, negative ones too: the pause after a pass is positive, and after
-- a pass without work it is at least as long as after one with work; the batch size and the lease
-- are positive.
pub new-positive :
    (c : Config) (had_work : Bool)
    → (pos 0 <ℤ next_interval (new c) had_work)
      × (next_interval (new c) true ≤ℤ next_interval (new c) false)
      × (pos 0 <ℤ (new c).batch_size)
      × (pos 0 <ℤ (new c).running_lease)
unfolding new next_interval
new-positive c had_work =
    let shortest = positive_or-positive c.interval minute (omega arith) in
    let idle =
      if leb_ℤ c.idle_interval (pos 0) then positive_or c.interval minute else c.idle_interval in
    let longer = at_least (positive_or c.interval minute) idle in
    (
      if_both (λ (d : ℤ). pos 0 <ℤ d) had_work shortest
          (longer-positive (positive_or c.interval minute) _ shortest longer),
      longer,
      positive_or-positive c.batch_size 100 (omega arith),
      positive_or-positive c.running_lease (5 * minute) (omega arith),
    )
