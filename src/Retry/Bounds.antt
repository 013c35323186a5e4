-- ===== src/Retry/Bounds.antt =====
-- internal/retry/backoff.go: how long the engine waits.
use native.Mathlib.Nat.{pow-suc, mul-le-mul_left}
use Prim.Native.Nat.{min}
use go_task_q.Base.{
  le→not_ltb, Bool, sym, ltb→lt, ◌<◌, zero, inr, inl, suc, if_both, Bool-cases, ap, if◌then◌else◌,
  ◌^◌, subst, arith, ◌∙◌, pos_part, ltb, ◌≤ℤ◌, ◌*◌, false, ℤ, ◌≡◌, pos, ◌≤◌, ℕ,
}
use go_task_q.Retry.{jittered, capped, Config, delay, grow, Float}

-- Up to 2^53 every integer is a float, and conversion, comparison and doubling are exact.
abbrev pub exact : ℕ
exact = 2 ^ 53

pub record IsExact (f : Float) : Type 0 where
  pub floor_le :
      (d : ℕ) (x : f.Num) → d ≤ exact → f.less (f.round (pos d)) x ≡ false → f.floor x ≤ℤ pos d
  pub floor_round : (d : ℕ) → d ≤ exact → f.floor (f.round (pos d)) ≡ pos d
  pub less_round :
      (a b : ℕ) → a ≤ exact → b ≤ exact → f.less (f.round (pos a)) (f.round (pos b)) ≡ ltb a b
  pub times_two : (a : ℕ) → a * 2 ≤ exact → f.times (f.round (pos a)) f.two ≡ f.round (pos (a * 2))

pow_pos : (n : ℕ) → 1 ≤ 2 ^ n
pow_pos zero = omega arith
pow_pos (suc n) = omega (arith, pow-suc 2 n, pow_pos n)

pow_double : (d n : ℕ) → d * 2 ^ suc n ≡ d * 2 * 2 ^ n
pow_double d n = omega (arith, ap (λ x. d * x) (pow-suc 2 n))

past_min : (m d n : ℕ) → m < d * 2 → m ≡ min (d * 2 ^ suc n) m
past_min m d n h = rw (pow_double d n) (omega (arith, mul-le-mul_left (d * 2) (pow_pos n)))

module _ (f : Float) (e : IsExact f) where
  open f use {Num, round, floor, less}
  open e use {floor_le, floor_round, less_round, times_two}

  not_less_cap :
      (top x : Num) → less top top ≡ false → less top (if less top x then top else x) ≡ false
  not_less_cap top x h = elim (Bool-cases (less top x)) [ inl t ↦ rw (t, h) | inr n ↦ rw (n, n) ]

  not_less_top :
      (c : Config f) (m : ℕ)
      → c.max_delay ≡ pos m
      → m ≤ exact
      → less (round c.max_delay) (round c.max_delay) ≡ false
  not_less_top c m h k = rw h (less_round m m k k ∙ ground arith)

  -- The wait is never longer than the maximum, whatever the attempt, the jitter and the random
  -- number, if the maximum is at most 2^53 nanoseconds (104 days).
  pub delay-le-max :
      (c : Config f) (m : ℕ) (attempt : ℤ) (random : Num)
      → c.max_delay ≡ pos m
      → m ≤ exact
      → delay f c attempt random ≤ℤ pos m
  unfolding delay
  delay-le-max c m attempt random h k =
      let top = not_less_top c m h k in
      floor_le m _ k (
        subst
          (λ x.
            less (round x)
              (jittered f c random (capped f c (grow f c (pos_part attempt) (round c.base_delay))))
            ≡ false)
          h
          (if_both (λ x. less (round c.max_delay) x ≡ false) (less f.nought c.jitter)
            (not_less_cap _ _ top) (not_less_cap _ _ top)))

  grow-exact :
      (c : Config f) (m n d : ℕ)
      → c.max_delay ≡ pos m
      → c.multiplier ≡ f.two
      → m * 2 ≤ exact
      → d ≤ m
      → grow f c n (round (pos d)) ≡ round (pos (min (d * 2 ^ n) m))
  unfolding grow
  grow-exact c m zero d h t k l = ap (λ x. round (pos x)) (omega arith)
  grow-exact c m (suc n) d h t k l =
      let doubled : f.times (round (pos d)) c.multiplier ≡ round (pos (d * 2)) =
        ap (f.times (round (pos d))) t ∙ times_two d (omega arith) in
      let compared : less (round c.max_delay) (round (pos (d * 2))) ≡ ltb m (d * 2) =
        ap (λ x. less (round x) (round (pos (d * 2)))) h
        ∙ less_round m (d * 2) (omega arith) (omega arith) in
      rw (doubled, compared)
        (elim (Bool-cases (ltb m (d * 2))) [
          | inl past ↦
              rw past (ap round h ∙ ap (λ x. round (pos x)) (past_min m d n (ltb→lt _ _ past)))
          | inr within ↦ rw within (
              grow-exact c m n (d * 2) h t k (ground arith)
              ∙ ap (λ x. round (pos (min x m))) (sym (pow_double d n)))
        ])

  -- Without jitter and with a multiplier of two, the wait after `n` failures is the base delay
  -- doubled `n` times, or the maximum if that is less; the maximum is at most 2^52 nanoseconds.
  pub delay_exponential :
      (c : Config f) (b m n : ℕ) (random : Num)
      → c.base_delay ≡ pos b
      → c.max_delay ≡ pos m
      → c.multiplier ≡ f.two
      → less f.nought c.jitter ≡ false
      → m * 2 ≤ exact
      → b ≤ m
      → delay f c (pos n) random ≡ pos (min (b * 2 ^ n) m)
  unfolding delay
  delay_exponential c b m n random hb hm t j k l =
      let grown : grow f c n (round c.base_delay) ≡ round (pos (min (b * 2 ^ n) m)) =
        ap (λ x. grow f c n (round x)) hb ∙ grow-exact c m n b hm t k l in
      let small : less (round c.max_delay) (round (pos (min (b * 2 ^ n) m))) ≡ false =
        ap (λ x. less (round x) (round (pos (min (b * 2 ^ n) m)))) hm
        ∙ less_round m (min (b * 2 ^ n) m) (omega arith) (omega arith)
        ∙ le→not_ltb m (min (b * 2 ^ n) m) (omega arith) in
      ap (λ x. floor (jittered f c random (capped f c x))) grown
      ∙ ap
          (λ (b' : Bool). floor (
            jittered f c random
              (if b' then round c.max_delay else round (pos (min (b * 2 ^ n) m)))))
          small
      ∙ rw j (floor_round (min (b * 2 ^ n) m) (omega arith))
