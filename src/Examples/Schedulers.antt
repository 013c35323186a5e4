-- ===== src/Examples/Schedulers.antt =====
-- internal/scheduler/scheduler.go: a nightly entry, over a calendar that knows hours and minutes.
use go_task_q.Scheduler.{
  stamped, search_from, Calendar, CronSchedule, Registered, is_due, next, limit_of, start_of,
}
use go_task_q.Scheduler.Next.{IsCalendar, First, next-First}
use go_task_q.Scheduler.Ticks.{Occasion, is_due_iff}
use go_task_q.Time.{minute, Time}
use go_task_q.Examples.Data.{a_job}
use go_task_q.Base.{
  some, none, Bool, ◌+◌, false, ◌↔◌, ◌<◌, [], ◌%◌, refl, ◌≤◌, ap, ◌≡◌, ◌∷◌, arith, ◌/◌, ◌*◌, true,
}

abbrev hours_only : Calendar
hours_only = record {
  month = λ t. 1;
  day = λ t. 1;
  weekday = λ t. 0;
  hour = λ t. t / (60 * minute) % 24;
  minute_of = λ t. t / minute % 60;
  next_month = λ t. (t / minute + 1) * minute;
  next_day = λ t. (t / minute + 1) * minute;
  next_hour = λ t. (t / (60 * minute) + 1) * (60 * minute);
}

same_hour :
    (t u : Time)
    → t ≤ u
    → u < (t / (60 * minute) + 1) * (60 * minute)
    → u / (60 * minute) ≡ t / (60 * minute)
same_hour t u h k = omega arith

hours_only-IsCalendar : IsCalendar hours_only
hours_only-IsCalendar = record {
  month_on = λ t a. (omega arith, omega arith);
  day_on = λ t a. (omega arith, omega arith);
  hour_on = λ t a. (omega arith, omega arith);
  month_lasts = λ t u h k. refl;
  day_lasts = λ t u h k. (refl, refl);
  hour_lasts = λ t u h k. ap (λ x. x % 24) (same_hour t u h k);
}

-- At minute 0 of hours 0 and 2.
abbrev nightly : CronSchedule
nightly = record {
  minutes = true ∷ [];
  hours = true ∷ false ∷ true ∷ [];
  doms = true ∷ [];
  months = true ∷ [];
  dows = true ∷ [];
}

abbrev nightly_entry : Registered
nightly_entry = record {
  entry = record {
    name = "nightly";
    cron = "0 0,2 * * *";
    job = a_job;
    has_handler = true;
    enabled = true;
  };
  schedule = nightly;
  last_run = 0;
}

next-First_example :
    (r : Time) × (next hours_only nightly 0 ≡ some r)
    × First hours_only hours_only-IsCalendar nightly
        (limit_of hours_only nightly 0)
        (start_of hours_only nightly 0)
        r
next-First_example = next-First hours_only hours_only-IsCalendar nightly 0

two_hours : next hours_only nightly 0 ≡ some (120 * minute)
unfolding next search_from
two_hours = refl

is_due_iff_example :
    (due : Bool) × (is_due hours_only (300 * minute) nightly_entry ≡ some due)
    × ((due ≡ true)
        ↔ ((nightly_entry.entry.enabled ≡ true) × Occasion hours_only nightly_entry (300 * minute)))
is_due_iff_example = is_due_iff hours_only hours_only-IsCalendar nightly_entry (300 * minute)

fires_first : is_due hours_only (300 * minute) nightly_entry ≡ some true
unfolding is_due next search_from
fires_first = refl

fires_again :
    is_due hours_only (1500 * minute) (stamped (300 * minute) nightly_entry true) ≡ some true
unfolding is_due next search_from
fires_again = refl

-- A calendar whose clock skips an hour may give an instant that is not later: the search then never
-- returns.
abbrev standing : Calendar
standing = record hours_only { next_hour = λ t. t }

never_returns : search_from standing nightly 20 (limit_of standing nightly 0) (60 * minute) ≡ none
unfolding search_from
never_returns = refl
