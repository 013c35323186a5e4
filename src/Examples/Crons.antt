-- ===== src/Examples/Crons.antt =====
-- internal/scheduler/scheduler.go: cron expressions that are read.
use go_task_q.Scheduler.{at, CronSchedule}
use go_task_q.Scheduler.Cron.{
  Item, every, every_nth, single, span, parse_field, parse_parts, parse_part, parse_cron, fields,
  mark, mark_each,
}
use go_task_q.Scheduler.Cron.Fields.{Says, SomeSelects, parse_field-selects}
use go_task_q.Scheduler.Cron.RoundTrip.{parse_field-render}
use go_task_q.Base.{
  arith, ◌↔◌, ◌≤◌, refl, ℕ, false, [], some, none, true, length, ◌≡◌, ◌∷◌, Bool, split, List, codes,
}

abbrev some_days : List Bool
some_days = true ∷ true ∷ false ∷ true ∷ true ∷ false ∷ true ∷ []

reads_days : parse_field 0 6 (codes "1, 3-4,*/6") ≡ some some_days
unfolding parse_field split go_task_q.Base.bytes_eq go_task_q.Base.has_prefix
reads_days = refl

parse_field-selects_example :
    (items : List Item) × Says 0 6 (split b',' (codes "1, 3-4,*/6")) items
    × (length some_days ≡ 7)
    × ((v : ℕ) → v ≤ 6 → (at some_days v ≡ true) ↔ SomeSelects 0 items v)
parse_field-selects_example =
    parse_field-selects 0 6 (codes "1, 3-4,*/6") some_days (omega arith) reads_days

abbrev two_items : List Item
two_items = span 1 5 ∷ every_nth 15 ∷ []

parse_field-render_example :
    (out : List Bool) × (parse_field 1 31 (codes "1-5,*/15") ≡ some out)
    × ((v : ℕ) → v ≤ 30 → (at out v ≡ true) ↔ SomeSelects 1 two_items v)
unfolding go_task_q.Scheduler.Cron.Printed.decimal
parse_field-render_example = parse_field-render 1 31 (span 1 5) (every_nth 15 ∷ []) (omega arith) (
  ((omega arith, omega arith, omega arith), (omega arith, omega arith)),
  ((omega arith, omega arith), tt),
)

refused : (parse_cron (codes "0 0 * *") ≡ none) × (parse_cron (codes "61 * * * *") ≡ none)
unfolding parse_cron split go_task_q.Base.bytes_eq go_task_q.Base.has_prefix
refused = (refl, refl)
