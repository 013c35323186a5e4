-- ===== src/Scheduler/Ticks.antt =====
-- internal/scheduler/scheduler.go: which entries a tick fires.
use go_task_q.Scheduler.{
  due_by, next, fires, stamped, Calendar, Registered, is_due, limit_of, start_of,
}
use mathlib.Core.Bool.{false≢true}
use go_task_q.Scheduler.Next.{IsCalendar, IsAligned, matches, First, missing, found, next-First}
use go_task_q.Time.{minute, before, is_zero, Time}
use go_task_q.Base.{
  if◌then◌else◌, eq_of_some, some, not, ◌&&◌, Bool, inr, ltb→lt, inl, ltb, refl, Bool-cases, ◌∙◌,
  ap, sym, ◌≤◌, arith, ◌↔◌, ◌*◌, false, true, ◌+◌, ◌<◌, ◌≡◌,
}

-- A full minute after the last run, within 4 * 365 days of it, at which the schedule matches.
pub record Occasion (cal : Calendar) (r : Registered) (now : Time) : Type 0 where
  pub time : Time
  pub full : IsAligned time
  pub later : r.last_run < time
  pub soon : time < r.last_run + 4 * 365 * 24 * 60 * minute
  pub admitted : matches cal r.schedule time ≡ true
  pub passed : time ≤ now

both_not : (b c : Bool) → ((not b && not c) ≡ true) ↔ ((b ≡ false) × (c ≡ false))
both_not true c = ((λ h. cc), λ (y, z). cc)
both_not false true = ((λ h. cc), λ (y, z). cc)
both_not false false = ((λ h. (refl, refl)), λ h. refl)

module _ (cal : Calendar) (l : IsCalendar cal) where
  First-Occasion :
      (r : Registered) (now : Time) (t : Time)
      → First cal l r.schedule
          (limit_of cal r.schedule r.last_run)
          (start_of cal r.schedule r.last_run)
          t
      → is_zero t ≡ false
      → before now t ≡ false
      → Occasion cal r now
  First-Occasion r now t (missing z n) h k = absurd (ground (arith, z))
  First-Occasion r now t (found p q a m n) h k = record {
    time = t;
    full = a;
    later = omega (arith, p);
    soon = omega (arith, q);
    admitted = m;
    passed = ground (arith, k);
  }

  -- The occasion is among the instants that `Next` looks at.
  seen :
      (r : Registered) (now : Time) (o : Occasion cal r now)
      → (start_of cal r.schedule r.last_run ≤ o.time)
        × (o.time < limit_of cal r.schedule r.last_run)
  seen r now o = (omega (arith, o.full, o.later), omega (arith, o.soon))

  Occasion-First :
      (r : Registered) (now : Time) (t : Time)
      → First cal l r.schedule
          (limit_of cal r.schedule r.last_run)
          (start_of cal r.schedule r.last_run)
          t
      → Occasion cal r now
      → (is_zero t ≡ false) × (before now t ≡ false)
  Occasion-First r now t (missing z n) o =
      absurd (false≢true (sym (n o.time o.full (seen r now o).0 (seen r now o).1) ∙ o.admitted))
  Occasion-First r now t (found p q a m n) o = elim (Bool-cases (ltb o.time t)) [
    | inl b ↦
        absurd (false≢true (sym (n o.time o.full (seen r now o).0 (ltb→lt _ _ b)) ∙ o.admitted))
    | inr b ↦ (ground (arith, p), ground (arith, b, o.passed))
  ]

  is_due_lem :
      (r : Registered) (now t : Time)
      → next cal r.schedule r.last_run ≡ some t
      → is_due cal now r ≡ due_by now r (some t)
  unfolding is_due
  is_due_lem r now t e = ap (due_by now r) e

  enabled_lem :
      (r : Registered) (now t : Time)
      → r.entry.enabled ≡ true
      → First cal l r.schedule
          (limit_of cal r.schedule r.last_run)
          (start_of cal r.schedule r.last_run)
          t
      → (b : Bool) × (due_by now r (some t) ≡ some b) × ((b ≡ true) ↔ Occasion cal r now)
  enabled_lem r now t on first =
      let tests = both_not (is_zero t) (before now t) in
      (
        not (is_zero t) && not (before now t),
        ap (λ b. if b then fires now (some t) else some false) on,
        (
          (λ h. let (z, b) = tests.0 h in First-Occasion r now t first z b),
          λ o. tests.1 (Occasion-First r now t first o),
        ),
      )

  -- In a location whose clock is never set forward or back, such as UTC: the test of an entry by a
  -- tick at `now` returns, and finds the entry due exactly when the entry is enabled and its schedule
  -- has matched at a full minute after its last run, not later than `now` and within 4 * 365 days of
  -- that run. An entry that has never run counts as last run at the zero time, so it is due at its
  -- first tick whatever that tick's date, if its schedule matches anywhere in those first years.
  pub is_due_iff :
      (r : Registered) (now : Time)
      → (due : Bool) × (is_due cal now r ≡ some due)
        × ((due ≡ true) ↔ ((r.entry.enabled ≡ true) × Occasion cal r now))
  is_due_iff r now =
      let (t, e, first) = next-First cal l r.schedule r.last_run in
      elim (Bool-cases r.entry.enabled) [
        | inl on ↦
            let (b, tested, k) = enabled_lem r now t on first in
            (b, is_due_lem r now t e ∙ tested, ((λ h. (on, k.0 h)), λ (_, o). k.1 o))
        | inr off ↦ (
          false,
          is_due_lem r now t e ∙ ap (λ b. if b then fires now (some t) else some false) off,
          ((λ h. cc), λ (on, o). absurd (false≢true (sym off ∙ on))),
        )
      ]

  -- An entry that a tick has fired is due again at a later tick only if its schedule matches at a
  -- full minute between the two ticks.
  pub tick_twice :
      (r : Registered) (now now' : Time)
      → is_due cal now' (stamped now r true) ≡ some true
      → (t : Time) × IsAligned t × (now < t) × (t ≤ now') × (matches cal r.schedule t ≡ true)
  tick_twice r now now' k =
      let again = record r { last_run = now } in
      let (due, e, i) = is_due_iff again now' in
      let o = (i.0 (eq_of_some (sym e ∙ k))).1 in (o.time, o.full, o.later, o.passed, o.admitted)
