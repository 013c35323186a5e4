-- ===== src/Scheduler/Next.antt =====
-- internal/scheduler/scheduler.go: `Next` gives the first full minute that matches.
use go_task_q.Scheduler.{
  Calendar, CronSchedule, at, day_fits, look_at, search_from, next, start_of, limit_of, rounds,
}
use go_task_q.Base.{
  Option, some, leb, zero, suc, ◌*◌, ℕ, inr, ltb→lt, ap, refl, inl, ◌∙◌, true, arith, ◌&&◌, ltb,
  false, ◌<◌, ◌+◌, ◌-◌, ◌≤◌, ◌%◌, Bool-cases, ◌≡◌, Bool,
}
use go_task_q.Time.{minute, Time}

abbrev pub IsAligned : Time → Type 0
IsAligned t = t % minute ≡ 0

-- What Go documents of dates in a location whose clock is never set forward or back, such as UTC: the
-- next month, day or hour begins on a full minute, at least one
-- minute after a full minute, and until it begins the field stays what it is.
pub record IsCalendar (cal : Calendar) : Type 0 where
  pub month_on :
      (t : Time) → IsAligned t → (t + minute ≤ cal.next_month t) × IsAligned (cal.next_month t)
  pub day_on : (t : Time) → IsAligned t → (t + minute ≤ cal.next_day t) × IsAligned (cal.next_day t)
  pub hour_on :
      (t : Time) → IsAligned t → (t + minute ≤ cal.next_hour t) × IsAligned (cal.next_hour t)
  pub month_lasts : (t u : Time) → t ≤ u → u < cal.next_month t → cal.month u ≡ cal.month t
  pub day_lasts :
      (t u : Time)
      → t ≤ u
      → u < cal.next_day t
      → (cal.day u ≡ cal.day t) × (cal.weekday u ≡ cal.weekday t)
  pub hour_lasts : (t u : Time) → t ≤ u → u < cal.next_hour t → cal.hour u ≡ cal.hour t

-- The schedule admits the instant's month, its day of the month, which is 31 at most, its day of the
-- week, its hour and its minute.
abbrev pub matches : Calendar → CronSchedule → Time → Bool
matches cal c t =
    at c.months (cal.month t - 1)
    && leb (cal.day t) 31
    && at c.doms (cal.day t - 1)
    && at c.dows (cal.weekday t)
    && at c.hours (cal.hour t)
    && at c.minutes (cal.minute_of t)

-- The tests of a round, in which the one of the day stands for three.
matches_lem :
    (cal : Calendar) (c : CronSchedule) (t : Time)
    → matches cal c t ≡ (
        at c.months (cal.month t - 1)
        && day_fits cal c t
        && at c.hours (cal.hour t)
        && at c.minutes (cal.minute_of t))
matches_lem cal c t = ground arith

module _ (cal : Calendar) (l : IsCalendar cal) (c : CronSchedule) where
  -- No full minute of [t, u) matches.
  abbrev pub NoneIn : Time → Time → Type 0
  NoneIn t u = (x : Time) → IsAligned x → t ≤ x → x < u → matches cal c x ≡ false

  -- The first match from `t` on, or the zero time where there is none before `limit`.
  pub data First (limit t r : Time) : Type 0 where
    missing : r ≡ 0 → NoneIn t limit → First limit t r
    found : t ≤ r → r < limit → IsAligned r → matches cal c r ≡ true → NoneIn t r → First limit t r

  NoneIn-join : (t u v : Time) → NoneIn t u → NoneIn u v → NoneIn t v
  NoneIn-join t u v h k x a p q = elim (Bool-cases (ltb x u)) [
    | inl b ↦ h x a p (ltb→lt _ _ b)
    | inr b ↦ k x a (ground (arith, b)) q
  ]

  First-skip : (limit t u r : Time) → t ≤ u → NoneIn t u → First limit u r → First limit t r
  First-skip limit t u r p h (missing z k) = missing z (NoneIn-join t u limit h k)
  First-skip limit t u r p h (found q b a m k) = found (omega arith) b a m (NoneIn-join t u r h k)

  month-none : (t : Time) → at c.months (cal.month t - 1) ≡ false → NoneIn t (cal.next_month t)
  month-none t h x a p q =
      matches_lem cal c x ∙ rw (ap (λ m. at c.months (m - 1)) (l.month_lasts t x p q) ∙ h) refl

  day_fits-same :
      (t x : Time)
      → cal.day x ≡ cal.day t
      → cal.weekday x ≡ cal.weekday t
      → day_fits cal c x ≡ day_fits cal c t
  day_fits-same t x d w = rw (d, w) refl

  day-none : (t : Time) → day_fits cal c t ≡ false → NoneIn t (cal.next_day t)
  day-none t h x a p q =
      let (d, w) = l.day_lasts t x p q in
      ground (arith, matches_lem cal c x, day_fits-same t x d w ∙ h)

  hour-none : (t : Time) → at c.hours (cal.hour t) ≡ false → NoneIn t (cal.next_hour t)
  hour-none t h x a p q =
      ground (arith, matches_lem cal c x, ap (at c.hours) (l.hour_lasts t x p q) ∙ h)

  aligned-only : (t x : Time) → IsAligned t → IsAligned x → t ≤ x → x < t + minute → x ≡ t
  aligned-only t x a b p q = omega arith

  minute-none :
      (t : Time) → IsAligned t → at c.minutes (cal.minute_of t) ≡ false → NoneIn t (t + minute)
  minute-none t b h x a p q = ground (
    arith,
    matches_lem cal c x,
    ap (λ y. at c.minutes (cal.minute_of y)) (aligned-only t x b a p q) ∙ h,
  )

  -- A search that returns.
  abbrev pub Returns : Time → Time → Option Time → Type 0
  Returns limit t o = (r : Time) × (o ≡ some r) × First limit t r

  Returns-skip :
      (limit t u : Time) (o : Option Time)
      → t ≤ u
      → NoneIn t u
      → Returns limit u o
      → Returns limit t o
  Returns-skip limit t u o p h (r, e, first) = (r, e, First-skip limit t u r p h first)

  -- One round: the instants that it passes over do not match.
  look_at-Returns :
      (limit t : Time) (rest : Time → Option Time)
      → IsAligned t
      → t < limit
      → ((u : Time) → IsAligned u → t + minute ≤ u → Returns limit u (rest u))
      → Returns limit t (look_at cal c t rest)
  look_at-Returns limit t rest a b h = elim (Bool-cases (at c.months (cal.month t - 1))) [
    | inr n ↦
        let (far, full) = l.month_on t a in
        rw n (
          Returns-skip limit t (cal.next_month t) _ (omega (arith, far)) (month-none t n)
            (h _ full far))
    | inl m ↦ rw m (elim (Bool-cases (day_fits cal c t)) [
      | inr n ↦
          let (far, full) = l.day_on t a in
          rw n (
            Returns-skip limit t (cal.next_day t) _ (omega (arith, far)) (day-none t n)
              (h _ full far))
      | inl d ↦ rw d (elim (Bool-cases (at c.hours (cal.hour t))) [
        | inr n ↦
            let (far, full) = l.hour_on t a in
            rw n (
              Returns-skip limit t (cal.next_hour t) _ (omega (arith, far)) (hour-none t n)
                (h _ full far))
        | inl o ↦ rw o (elim (Bool-cases (at c.minutes (cal.minute_of t))) [
          | inr n ↦ rw n (
              Returns-skip limit t (t + minute) _ (omega arith) (minute-none t a n)
                (h (t + minute) (omega arith) (omega arith)))
          | inl i ↦ rw i (
            t,
            refl,
            found (omega arith) b a (matches_lem cal c t ∙ rw (m, d, o, i) refl)
                (λ x y p q. absurd (omega arith)),
          )
        ])
      ])
    ])
  ]

  past-Returns : (limit t : Time) → ltb t limit ≡ false → Returns limit t (some 0)
  past-Returns limit t n = (0, refl, missing refl (λ x y p q. absurd (ground (arith, n))))

  search_from-Returns :
      (n : ℕ) (limit t : Time)
      → IsAligned t
      → limit ≤ t + n * minute
      → Returns limit t (search_from cal c n limit t)
  unfolding search_from
  search_from-Returns zero limit t a b =
      let past : ltb t limit ≡ false = ground (arith, b) in rw past (past-Returns limit t past)
  search_from-Returns (suc n) limit t a b = elim (Bool-cases (ltb t limit)) [
    | inr n' ↦ rw n' (past-Returns limit t n')
    | inl t' ↦ rw t' (
        look_at-Returns limit t (search_from cal c n limit) a (ltb→lt _ _ t')
          (λ u full far. search_from-Returns n limit u full (omega arith)))
  ]

  -- In a location whose clock is never set forward or back, such as UTC: `Next` returns, after no
  -- more rounds than 4 * 365 days have minutes, and gives the first full minute after `from` at which
  -- all five fields of the schedule admit the date, or the zero time if there is none within these
  -- days.
  pub next-First :
      (from : Time)
      → (r : Time) × (next cal c from ≡ some r)
        × First (limit_of cal c from) (start_of cal c from) r
  unfolding next
  next-First from =
      search_from-Returns (rounds cal c) (limit_of cal c from) (start_of cal c from) (omega arith)
        (omega arith)
