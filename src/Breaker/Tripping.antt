-- ===== src/Breaker/Tripping.antt =====
-- internal/circuitbreaker: when a closed breaker opens.
use go_task_q.Base.{
  ℕ, ◌+◌, ◌≡◌, refl, ap, ◌⊎◌, ◌↔◌, inl, inr, sym, subst, All-split, ◌∙◌, true, false, List, [], ◌∷◌,
  ◌++◌, arith, ℤ, pos, leb_ℤ, ◌<ℤ◌, ◌≤ℤ◌, All, length, Bool-cases,
}
use go_task_q.Breaker.{Breaker, Config, Call, asks, succeeds, fails, closed, open_, new, step, run}
use go_task_q.Breaker.Invariant.{Inv, new-Inv, run-Inv}

-- The report of a finished job, as opposed to a question.
abbrev pub IsReport : Call → Type 0
IsReport (asks now) = ⊥
IsReport (succeeds now) = Unit
IsReport (fails now) = Unit

abbrev pub IsFailure : Call → Type 0
IsFailure (asks now) = ⊥
IsFailure (succeeds now) = ⊥
IsFailure (fails now) = Unit

-- Somewhere in the calls stand `threshold` failures in a row.
abbrev pub HasRun : ℤ → List Call → Type 0
HasRun threshold cs =
    (xs : List Call) × (fs : List Call) × (ys : List Call) × (cs ≡ xs ++ (fs ++ ys))
    × All IsFailure fs
    × (threshold ≡ pos (length fs))

-- The calls begin with the failures that are still missing after `n`.
abbrev Completes : ℕ → ℤ → List Call → Type 0
Completes n threshold cs =
    (fs : List Call) × (ys : List Call) × (cs ≡ fs ++ ys)
    × All IsFailure fs
    × (threshold ≡ pos (n + length fs))

HasRun-cons :
    (threshold : ℤ) (c : Call) (cs : List Call) → HasRun threshold cs → HasRun threshold (c ∷ cs)
HasRun-cons threshold c cs (xs, fs, ys, e, a, t) = (c ∷ xs, fs, ys, ap (◌∷◌ c) e, a, t)

fails_stays :
    (b : Breaker) (now : ℕ)
    → b.state ≡ closed
    → leb_ℤ b.cfg.failure_threshold (pos (b.failures + 1)) ≡ false
    → step b (fails now) ≡ record b { failures = b.failures + 1 }
unfolding step
fails_stays b now s h = ground arith

succeeds_clears :
    (b : Breaker) (now : ℕ) → b.state ≡ closed → step b (succeeds now) ≡ record b { failures = 0 }
unfolding step
succeeds_clears b now s = ground arith

step_open : (b : Breaker) (c : Call) → IsReport c → b.state ≡ open_ → step b c ≡ b
unfolding step
step_open b (asks now) r s = elim r [ ]
step_open b (succeeds now) r s = ground arith
step_open b (fails now) r s = ground arith

step_report :
    (b : Breaker) (c : Call)
    → IsReport c
    → (b.state ≡ closed) ⊎ (b.state ≡ open_)
    → (((step b c).state ≡ closed) ⊎ ((step b c).state ≡ open_)) × ((step b c).cfg ≡ b.cfg)
unfolding step
step_report b (asks now) r s = elim r [ ]
step_report b (succeeds now) r s = ground arith
step_report b (fails now) r s = ground arith

run_open :
    (b : Breaker) (cs : List Call) → All IsReport cs → b.state ≡ open_ → (run b cs).state ≡ open_
unfolding run
run_open b [] r s = s
run_open b (c ∷ cs) (rc, rs) s =
    run_open (step b c) cs rs (ap Breaker.state (step_open b c rc s) ∙ s)

run_report :
    (b : Breaker) (cs : List Call)
    → All IsReport cs
    → (b.state ≡ closed) ⊎ (b.state ≡ open_)
    → (((run b cs).state ≡ closed) ⊎ ((run b cs).state ≡ open_)) × ((run b cs).cfg ≡ b.cfg)
unfolding run
run_report b [] r s = (s, refl)
run_report b (c ∷ cs) (rc, rs) s =
    let (s', e) = step_report b c rc s in
    let (t, e') = run_report (step b c) cs rs s' in (t, e' ∙ e)

run-append : (b : Breaker) (xs ys : List Call) → run b (xs ++ ys) ≡ run (run b xs) ys
unfolding run
run-append b [] ys = refl
run-append b (x ∷ xs) ys = run-append (step b x) xs ys

run-step :
    (b : Breaker) (c : Call) (cs : List Call) {b' : Breaker}
    → step b c ≡ b'
    → run b (c ∷ cs) ≡ run b' cs
unfolding run
run-step b c cs e = ap (λ x. run x cs) e

IsFailure-IsReport : (fs : List Call) → All IsFailure fs → All IsReport fs
IsFailure-IsReport [] a = tt
IsFailure-IsReport (asks now ∷ fs) a = elim a.0 [ ]
IsFailure-IsReport (succeeds now ∷ fs) a = elim a.0 [ ]
IsFailure-IsReport (fails now ∷ fs) a = (tt, IsFailure-IsReport fs a.1)

fails_opens :
    (b : Breaker) (now : ℕ)
    → b.state ≡ closed
    → leb_ℤ b.cfg.failure_threshold (pos (b.failures + 1)) ≡ true
    → (step b (fails now)).state ≡ open_
unfolding step
fails_opens b now s h = ground arith

run_failures :
    (b : Breaker) (fs : List Call)
    → All IsFailure fs
    → b.state ≡ closed
    → b.cfg.failure_threshold ≤ℤ pos (b.failures + length fs)
    → pos b.failures <ℤ b.cfg.failure_threshold
    → (run b fs).state ≡ open_
unfolding run
run_failures b [] a s t p = absurd (omega arith)
run_failures b (asks now ∷ cs) a s t p = elim a.0 [ ]
run_failures b (succeeds now ∷ cs) a s t p = elim a.0 [ ]
run_failures b (fails now ∷ cs) a s t p =
    elim (Bool-cases (leb_ℤ b.cfg.failure_threshold (pos (b.failures + 1)))) [
      | inl full ↦
          run_open (step b (fails now)) cs (IsFailure-IsReport cs a.1) (fails_opens b now s full)
      | inr more ↦
          ap Breaker.state (run-step b (fails now) cs (fails_stays b now s more))
          ∙ run_failures (record b { failures = b.failures + 1 }) cs a.1 s (omega arith)
              (ground arith)
    ]

Opens : Breaker → List Call → Type 0
Opens b cs = HasRun b.cfg.failure_threshold cs ⊎ Completes b.failures b.cfg.failure_threshold cs

Opens-cleared :
    (b : Breaker) (c : Call) (cs : List Call)
    → Opens (record b { failures = 0 }) cs
    → HasRun b.cfg.failure_threshold (c ∷ cs)
unfolding Opens
Opens-cleared b c cs (inl h) = HasRun-cons _ c cs h
Opens-cleared b c cs (inr (fs, ys, e, a, t)) =
    (c ∷ [], fs, ys, ap (◌∷◌ c) e, a, t ∙ ap pos (omega arith))

Opens-counted :
    (b : Breaker) (now : ℕ) (cs : List Call)
    → Opens (record b { failures = b.failures + 1 }) cs
    → Opens b (fails now ∷ cs)
unfolding Opens
Opens-counted b now cs (inl h) = inl (HasRun-cons _ (fails now) cs h)
Opens-counted b now cs (inr (fs, ys, e, a, t)) =
    inr (fails now ∷ fs, ys, ap (◌∷◌ (fails now)) e, (tt, a), t ∙ ap pos (omega arith))

Opens-after :
    (b : Breaker) (cs : List Call)
    → pos b.failures <ℤ b.cfg.failure_threshold
    → All IsReport cs
    → b.state ≡ closed
    → (run b cs).state ≡ open_
    → Opens b cs
unfolding run Opens
Opens-after b [] v r s h = cc
Opens-after b (asks now ∷ cs) v (rc, rs) s h = elim rc [ ]
Opens-after b (succeeds now ∷ cs) v (rc, rs) s h = inl (
    Opens-cleared b (succeeds now) cs (
      Opens-after (record b { failures = 0 }) cs (omega arith) rs s
        (sym (ap Breaker.state (run-step b (succeeds now) cs (succeeds_clears b now s))) ∙ h)))
Opens-after b (fails now ∷ cs) v (rc, rs) s h =
    elim (Bool-cases (leb_ℤ b.cfg.failure_threshold (pos (b.failures + 1)))) [
      | inl full ↦ inr (fails now ∷ [], cs, refl, (tt, tt), ground arith)
      | inr more ↦ Opens-counted b now cs (
          Opens-after (record b { failures = b.failures + 1 }) cs (ground arith) rs s
            (sym (ap Breaker.state (run-step b (fails now) cs (fails_stays b now s more))) ∙ h))
    ]

Opens-HasRun :
    (b : Breaker) (cs : List Call) → b.failures ≡ 0 → Opens b cs → HasRun b.cfg.failure_threshold cs
unfolding Opens
Opens-HasRun b cs z (inl h) = h
Opens-HasRun b cs z (inr (fs, ys, e, a, t)) = ([], fs, ys, e, a, t ∙ ap pos (omega arith))

opens_after_run :
    (b : Breaker) (fs ys : List Call)
    → Inv b
    → All IsReport (fs ++ ys)
    → All IsFailure fs
    → b.cfg.failure_threshold ≡ pos (length fs)
    → (b.state ≡ closed) ⊎ (b.state ≡ open_)
    → (run b (fs ++ ys)).state ≡ open_
opens_after_run b fs ys v r a t (inr o) = run_open b (fs ++ ys) r o
opens_after_run b fs ys v r a t (inl c) =
    ap Breaker.state (run-append b fs ys)
    ∙ run_open (run b fs) ys (All-split IsReport fs ys r).1
        (run_failures b fs a c (rw t (omega arith)) (v.closed_below c).0)

opens_of_HasRun :
    (b : Breaker) (cs : List Call)
    → Inv b
    → b.state ≡ closed
    → All IsReport cs
    → HasRun b.cfg.failure_threshold cs
    → (run b cs).state ≡ open_
opens_of_HasRun b cs v s r (xs, fs, ys, e, a, t) =
    let (rx, rest) = All-split IsReport xs (fs ++ ys) (subst (All IsReport) e r) in
    let (st, kept) = run_report b xs rx (inl s) in
    ap (λ l. (run b l).state) e
    ∙ ap Breaker.state (run-append b xs (fs ++ ys))
    ∙ opens_after_run (run b xs) fs ys (run-Inv b xs v) rest a
        (ap Config.failure_threshold kept ∙ t) st

new_closed : (c : Config) → ((new c).state ≡ closed) × ((new c).failures ≡ 0)
unfolding new
new_closed c = (refl, refl)

-- A breaker fresh from `new` that is only told how jobs ended (`record_success` and
-- `record_failure`, in any order and at any times) is open afterwards exactly when somewhere in
-- the reports as many failures as its failure threshold stand in a row.
pub opens_iff_HasRun :
    (c : Config) (cs : List Call)
    → All IsReport cs
    → ((run (new c) cs).state ≡ open_) ↔ HasRun (new c).cfg.failure_threshold cs
opens_iff_HasRun c cs r =
    let (s, z) = new_closed c in
    let v = new-Inv c in
    (
      λ h. Opens-HasRun (new c) cs z (Opens-after (new c) cs (v.closed_below s).0 r s h),
      opens_of_HasRun (new c) cs v s r,
    )
