-- ===== src/Scheduler/Cron/RoundTrip.antt =====
-- internal/scheduler/scheduler.go: `parseField` reads back a field that is written from its items.
use go_task_q.Scheduler.{at}
use go_task_q.Scheduler.Cron.{Item, parse_part, parse_parts, parse_field, mark, ◌>>=◌}
use go_task_q.Scheduler.Cron.Marks.{IsItem}
use go_task_q.Scheduler.Cron.Fields.{SomeSelects, Says, parse_field-selects}
use go_task_q.Scheduler.Cron.Printed.{
  render_item, Fits, IsMark, render_item-IsMark, trim_space-marks, parse_part-render,
}
use go_task_q.Base.{
  subst, false, suc, replicate, split, split-join, ◌↔◌, sym, true, refl, eq_of_some, ◌-◌, ◌∙◌, [],
  some, join, All-mono, ap, Bool, ◌≡◌, ◌∷◌, ◌≢◌, map, Bytes, All, ◌≤◌, List, ℕ,
}

Says-unique :
    (min max : ℕ) (parts : List Bytes) (xs ys : List Item)
    → Says min max parts xs
    → Says min max parts ys
    → xs ≡ ys
Says-unique min max [] [] [] h k = refl
Says-unique min max [] [] (y ∷ ys) h k = absurd k
Says-unique min max [] (x ∷ xs) ys h k = absurd h
Says-unique min max (p ∷ parts) [] ys h k = absurd h
Says-unique min max (p ∷ parts) (x ∷ xs) [] h k = absurd k
Says-unique min max (p ∷ parts) (x ∷ xs) (y ∷ ys) (e, h) (f, k) =
    let rest = Says-unique min max parts xs ys h k in
    let same = eq_of_some (sym e ∙ f) in rw (same, rest) refl

parse_parts-Says :
    (min max : ℕ) (parts : List Bytes) (items : List Item) (bits : List Bool)
    → Says min max parts items
    → (out : List Bool) × (parse_parts min max parts bits ≡ some out)
unfolding parse_parts
parse_parts-Says min max [] [] bits h = (bits, refl)
parse_parts-Says min max [] (x ∷ items) bits h = absurd h
parse_parts-Says min max (p ∷ parts) [] bits h = absurd h
parse_parts-Says min max (p ∷ parts) (item ∷ items) bits (e, h) =
    let (out, rest) = parse_parts-Says min max parts items (mark min max item bits) h in
    (out, ap (λ o. o >>= λ i. parse_parts min max parts (mark min max i bits)) e ∙ rest)

-- An item within the bounds of the field, whose numbers fit in 64 bits.
abbrev pub IsWritten : ℕ → ℕ → Item → Type 0
IsWritten min max item = IsItem min max item × Fits item

Says-render :
    (min max : ℕ) (items : List Item)
    → All (IsWritten min max) items
    → Says min max (map render_item items) items
Says-render min max [] h = tt
Says-render min max (item ∷ items) ((w, f), h) = (
  ap (parse_part min max) (trim_space-marks (render_item item) (render_item-IsMark item))
      ∙ parse_part-render min max item w f,
  Says-render min max items h,
)

rendered-plain : (items : List Item) → All (All (λ c. c ≢ b',')) (map render_item items)
rendered-plain [] = tt
rendered-plain (item ∷ items) = (
  All-mono IsMark (λ c. c ≢ b',') (render_item item) (λ c m. m.1) (render_item-IsMark item),
  rendered-plain items,
)

-- A field that is written from items within its bounds, with commas between them, is accepted, and
-- of the values from `min` to `max` exactly those that some item names are marked.
pub parse_field-render :
    (min max : ℕ) (item : Item) (items : List Item)
    → min ≤ max
    → All (IsWritten min max) (item ∷ items)
    → (out : List Bool) × (parse_field min max (join (b',' ∷ []) (map render_item (item ∷ items)))
        ≡ some out)
      × ((v : ℕ) → v ≤ max - min → (at out v ≡ true) ↔ SomeSelects min (item ∷ items) v)
unfolding parse_field
parse_field-render min max item items r h =
    let text = join (b',' ∷ []) (map render_item (item ∷ items)) in
    let parts =
      split-join b',' (render_item item) (map render_item items) (rendered-plain (item ∷ items)) in
    let says = Says-render min max (item ∷ items) h in
    let (out, parsed) =
      parse_parts-Says min max (split b',' text) (item ∷ items) (replicate (suc (max - min)) false)
        (subst (λ ps. Says min max ps (item ∷ items)) (sym parts) says) in
    let (read, said, sized, marked) = parse_field-selects min max text out r parsed in
    let same =
      Says-unique min max (map render_item (item ∷ items)) read (item ∷ items)
        (subst (λ ps. Says min max ps read) parts said) says in
    (
      out,
      parsed,
      subst (λ is. (v : ℕ) → v ≤ max - min → (at out v ≡ true) ↔ SomeSelects min is v) same marked,
    )
