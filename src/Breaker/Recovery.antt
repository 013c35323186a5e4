-- ===== src/Breaker/Recovery.antt =====
-- internal/circuitbreaker: how an open breaker lets probes through, and whether it closes again.
use go_task_q.Base.{
  ltb, ℕ, suc, ◌+◌, ◌≤◌, ◌≡◌, refl, ap, sym, subst, ◌∙◌, ◌⊎◌, Bool, true, false, if◌then◌else◌,
  List, [], ◌∷◌, arith, pos, pos_part, neg_part, ◌<ℤ◌, ◌≤ℤ◌, max_int64, length, All,
}
use go_task_q.Time.{Time, sub_ge_iff}
use go_task_q.Breaker.{Breaker, closed, open_, half_open, allow, record_success, record_failure}

-- A worker asks first and, if it may, reports how its job ended.
pub record Attempt : Type 0 where
  pub asked_at : Time
  pub ended_at : Time
  pub succeeded : Bool

abbrev report : Attempt → Breaker → Breaker
report a b = if a.succeeded then record_success b else record_failure a.ended_at b

-- One attempt; the Boolean says whether the job ran.
pub attempt : Breaker → Attempt → Breaker × Bool
attempt b a =
    let (b', allowed) = allow a.asked_at b in (if allowed then report a b' else b', allowed)

-- One worker making attempts one after another, and how many of them ran.
pub attempts : Breaker → List Attempt → Breaker × ℕ
attempts b [] = (b, 0)
attempts b (a ∷ rest) =
    let (b', ran) = attempt b a in
    let (b'', n) = attempts b' rest in (b'', if ran then suc n else n)

-- An open breaker refuses and stays as it is until `open_timeout` has passed since it opened; from
-- then on it lets the caller through and is half-open, with both counters at 0.
pub allow_open :
    (b : Breaker) (now d : ℕ)
    → b.state ≡ open_
    → b.cfg.open_timeout ≡ pos d
    → d ≤ max_int64
    → b.opened_at ≤ now
    → allow now b ≡ (
        if ltb now (b.opened_at + d)
        then (b, false)
        else (record b { state = half_open; failures = 0; successes = 0 }, true))
unfolding allow
allow_open b now d s e m k = ground (arith, sub_ge_iff now b.opened_at d m k)

-- Open, or half-open with no more successes than probes are let through.
abbrev pub IsTripped : Breaker → Type 0
IsTripped b =
    (b.state ≡ open_) ⊎ ((b.state ≡ half_open) × (pos b.successes ≤ℤ b.cfg.half_open_requests))

attempt-IsTripped :
    (b : Breaker) (a : Attempt)
    → b.cfg.half_open_requests <ℤ b.cfg.success_threshold
    → pos 0 <ℤ b.cfg.half_open_requests
    → IsTripped b
    → IsTripped (attempt b a).0 × ((attempt b a).0.cfg ≡ b.cfg)
unfolding attempt allow record_success record_failure
attempt-IsTripped b a h p t = ground arith

-- If fewer probes are let through than successes are wanted, a breaker that has opened never closes
-- again, whatever jobs one worker attempts and however they end.
pub never_closes :
    (b : Breaker) (cs : List Attempt)
    → b.cfg.half_open_requests <ℤ b.cfg.success_threshold
    → pos 0 <ℤ b.cfg.half_open_requests
    → IsTripped b
    → IsTripped (attempts b cs).0
unfolding attempts
never_closes b [] h p t = t
never_closes b (a ∷ rest) h p t =
    let (t', e) = attempt-IsTripped b a h p t in
    never_closes (attempt b a).0 rest
      (subst (λ c. c.half_open_requests <ℤ c.success_threshold) (sym e) h)
      (subst (λ c. pos 0 <ℤ c.half_open_requests) (sym e) p) t'

attempt_refused :
    (b : Breaker) (a : Attempt)
    → b.state ≡ half_open
    → b.cfg.half_open_requests ≤ℤ pos b.successes
    → attempt b a ≡ (b, false)
unfolding attempt allow
attempt_refused b a s h = ground arith

attempt_counted :
    (b : Breaker) (a : Attempt)
    → b.state ≡ half_open
    → pos b.successes <ℤ b.cfg.half_open_requests
    → pos (b.successes + 1) <ℤ b.cfg.success_threshold
    → a.succeeded ≡ true
    → attempt b a ≡ (record b { successes = b.successes + 1 }, true)
unfolding attempt allow record_success record_failure
attempt_counted b a s p h t = ground arith

attempt_last :
    (b : Breaker) (a : Attempt)
    → b.state ≡ half_open
    → pos b.successes <ℤ b.cfg.half_open_requests
    → b.cfg.success_threshold ≤ℤ pos (b.successes + 1)
    → a.succeeded ≡ true
    → ((attempt b a).0.state ≡ closed) × ((attempt b a).1 ≡ true)
unfolding attempt allow record_success record_failure
attempt_last b a s p h t = ground arith

-- How a list of attempts begins, from what its first attempt does.
attempts_next :
    (b : Breaker) (a : Attempt) (rest : List Attempt) {b' : Breaker} {ran : Bool}
    → attempt b a ≡ (b', ran)
    → attempts b (a ∷ rest)
      ≡ ((attempts b' rest).0, if ran then suc (attempts b' rest).1 else (attempts b' rest).1)
unfolding attempts
attempts_next b a rest e =
    ap
      (λ (r : Breaker × Bool).
        let q : Breaker × ℕ = attempts r.0 rest in
        let out : Breaker × ℕ = (q.0, if r.1 then suc q.1 else q.1) in out)
      e

-- Once the successes of a half-open breaker have reached the number of probes, it refuses every
-- caller and nothing changes any more.
pub attempts_wedged :
    (b : Breaker) (cs : List Attempt)
    → b.state ≡ half_open
    → b.cfg.half_open_requests ≤ℤ pos b.successes
    → attempts b cs ≡ (b, 0)
unfolding attempts
attempts_wedged b [] s h = refl
attempts_wedged b (a ∷ rest) s h =
    attempts_next b a rest (attempt_refused b a s h) ∙ attempts_wedged b rest s h

-- With at least as many probes as wanted successes, the missing successes in a row close a
-- half-open breaker, and all those attempts run.
pub attempts_close :
    (b : Breaker) (cs : List Attempt)
    → b.state ≡ half_open
    → b.cfg.success_threshold ≤ℤ b.cfg.half_open_requests
    → pos b.successes <ℤ b.cfg.success_threshold
    → b.cfg.success_threshold ≡ pos (b.successes + length cs)
    → All (λ a. a.succeeded ≡ true) cs
    → ((attempts b cs).0.state ≡ closed) × ((attempts b cs).1 ≡ length cs)
unfolding attempts
attempts_close b [] s h l e t = absurd (omega (arith, ap pos_part e, ap neg_part e))
attempts_close b (a ∷ []) s h l e t =
    let (c, r) = attempt_last b a s (omega arith) (rw e (omega arith)) t.0 in (c, rw r)
attempts_close b (a ∷ a' ∷ rest) s h l e t =
    let more : pos (b.successes + 1) <ℤ b.cfg.success_threshold = rw e (omega arith) in
    let first = attempts_next b a (a' ∷ rest) (attempt_counted b a s (omega arith) more t.0) in
    let (c, n) =
      attempts_close (record b { successes = b.successes + 1 }) (a' ∷ rest) s h more
        (e ∙ ap pos (omega arith)) t.1 in
    (ap (λ r. r.0.state) first ∙ c, ap (λ r. r.1) first ∙ ap suc n)
