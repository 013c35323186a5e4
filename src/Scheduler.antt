-- ===== src/Scheduler.antt =====
-- internal/scheduler/scheduler.go: registration, the tick, and the next time of a cron schedule.
-- The parser of cron expressions is an argument of `register`. Of Go's `time` the calendar is an
-- argument too: the fields of a date and `time.Date` with the next month, day or hour.
pub mod Cron
pub mod Next
pub mod Ticks
use go_task_q.Base.{
  true, ◌||◌, some, [], none, ltb, ◌/◌, zero, ◌-◌, ◌&&◌, str_eq, not, false, ◌*◌, ◌+◌,
  if◌then◌else◌, Bool, suc, Option, String, ◌∷◌, List, ℕ,
}
use go_task_q.Time.{is_zero, before, minute, Time}
use go_task_q.Models.{Job}

-- The dates of one location, that of the instants (`t.Location()`): `next_month t` is what `time.Date`
-- gives for the first instant of the month after that of `t`, and so on.
pub record Calendar : Type 0 where
  pub month : Time → ℕ
  pub day : Time → ℕ
  pub weekday : Time → ℕ
  pub hour : Time → ℕ
  pub minute_of : Time → ℕ
  pub next_month : Time → Time
  pub next_day : Time → Time
  pub next_hour : Time → Time

pub record CronSchedule : Type 0 where
  pub minutes : List Bool
  pub hours : List Bool
  pub doms : List Bool
  pub months : List Bool
  pub dows : List Bool

-- `xs[i]`; the code's indices are within the arrays.
abbrev pub at : List Bool → ℕ → Bool
at [] i = false
at (x ∷ xs) zero = x
at (x ∷ xs) (suc i) = at xs i

module _ (cal : Calendar) (c : CronSchedule) where
  abbrev pub day_fits : Time → Bool
  day_fits t =
      not (ltb 31 (cal.day t) || not (at c.doms (cal.day t - 1)) || not (at c.dows (cal.weekday t)))

  -- The body of the loop; `rest` is what follows from the next instant.
  abbrev pub look_at : Time → (Time → Option Time) → Option Time
  look_at t rest =
      if not (at c.months (cal.month t - 1))
      then rest (cal.next_month t)
      else if not (day_fits t)
      then rest (cal.next_day t)
      else if not (at c.hours (cal.hour t))
      then rest (cal.next_hour t)
      else if not (at c.minutes (cal.minute_of t))
      then rest (t + minute)
      else some t

  -- `for t.Before(limit)`, in at most so many rounds; `none` if these are not enough. They are where
  -- every round moves on. In a location with an hour that the clock skips, `time.Date` of that hour
  -- need not be later than `t`, and no number of rounds is enough.
  unfoldable pub search_from : ℕ → Time → Time → Option Time
  search_from zero limit t = if before t limit then none else some 0
  search_from (suc n) limit t =
      let rest = search_from n limit in if before t limit then look_at t rest else some 0

  abbrev pub start_of : Time → Time
  start_of from = (from + minute) / minute * minute

  abbrev pub limit_of : Time → Time
  limit_of from = from + 4 * 365 * 24 * 60 * minute

  abbrev pub rounds : ℕ
  rounds = 4 * 365 * 24 * 60

  unfoldable pub next : Time → Option Time
  unfolding search_from
  next from = search_from rounds (limit_of from) (start_of from)

pub record Entry : Type 0 where
  pub name : String
  pub cron : String
  pub job : Job
  pub has_handler : Bool
  pub enabled : Bool

-- An entry with its schedule and the time of its last run, which is the zero time before the first;
-- one for each name.
pub record Registered : Type 0 where
  pub entry : Entry
  pub schedule : CronSchedule
  pub last_run : Time

abbrev pub Scheduler : Type 0
Scheduler = List Registered

unfoldable pub put_entry : Entry → CronSchedule → Scheduler → Scheduler
put_entry e c [] = record { entry = e; schedule = c; last_run = 0 } ∷ []
put_entry e c (r ∷ rs) =
    let rest = put_entry e c rs in
    if str_eq r.entry.name e.name then record r { entry = e; schedule = c } ∷ rs else r ∷ rest

-- `none` is the error.
unfoldable pub register : (String → Option CronSchedule) → Entry → Scheduler → Option Scheduler
unfolding put_entry
register parse_cron e s =
    if str_eq e.name ""
    then none
    else elim (parse_cron e.cron) [ none ↦ none | some c ↦ some (put_entry e c s) ]

-- What a tick has done when it ends: the jobs handed to their handlers, the entries with the times of
-- their last runs, and whether every call of `Next` has returned.
pub record Ticked : Type 0 where
  pub jobs : List Job
  pub entries : Scheduler
  pub returned : Bool

abbrev pub fires : Time → Option Time → Option Bool
fires now none = none
fires now (some t) = some (not (is_zero t) && not (before now t))

-- `Next` is asked of an enabled entry only.
abbrev pub due_by : Time → Registered → Option Time → Option Bool
due_by now r answer = if r.entry.enabled then fires now answer else some false

abbrev pub stamped : Time → Registered → Bool → Registered
stamped now r fired = if fired then record r { last_run = now } else r

abbrev pub with_entry : Time → Registered → Bool → Ticked → Ticked
with_entry now r fired ticked = record ticked {
  jobs = if fired && r.entry.has_handler then r.entry.job ∷ ticked.jobs else ticked.jobs;
  entries = stamped now r fired ∷ ticked.entries;
}

module _ (cal : Calendar) where
  -- `none` if `Next` does not return.
  unfoldable pub is_due : Time → Registered → Option Bool
  unfolding next
  is_due now r = if r.entry.enabled then fires now (next cal r.schedule r.last_run) else some false

  -- One tick, which gets no further than an entry for which `Next` does not return.
  unfoldable pub dispatch : Time → Scheduler → Ticked
  unfolding is_due
  dispatch now [] = record { jobs = []; entries = []; returned = true }
  dispatch now (r ∷ rs) =
      let rest = dispatch now rs in
      elim (is_due now r) [
        | none ↦ record { jobs = []; entries = r ∷ rs; returned = false }
        | some fired ↦ with_entry now r fired rest
      ]
