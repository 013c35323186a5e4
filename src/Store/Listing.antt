-- ===== src/Store/Listing.antt =====
-- internal/store/store.go: `ListJobs`. A cursor stands for what `encodeCursor` puts into it, and the
-- order in which Postgres sorts texts is a parameter.
pub mod Order
pub mod Scans
pub mod Client
pub mod Pages
use go_task_q.Models.{JobState, is_unset, state_eq, Job}
use go_task_q.Time.{Time, truncate_micros}
use go_task_q.Store.Rows.{Row, Result, ok, err, other_error, NullText, scan_job, ◌>>=◌}
use go_task_q.Store.Table.{Db}
use go_task_q.Base.{
  pos_part, pos, zero, leb_ℤ, suc, ◌==◌, [], take, ltb, if◌then◌else◌, ◌∷◌, ◌||◌, ◌&&◌, true, some,
  none, List, ℤ, Bool, ℕ, String, Option,
}

pub data Cursor : Type 0 where
  start malformed : Cursor
  after : Time → String → Cursor

-- An unset state means any.
pub record ListFilter : Type 0 where
  pub state : JobState
  pub limit : ℤ
  pub cursor : Cursor

pub record Page : Type 0 where
  pub jobs : List Job
  pub next_cursor : Cursor

abbrev pub effective_limit : ℤ → ℕ
effective_limit n = if leb_ℤ n (pos 0) then 50 else if ltb 500 (pos_part n) then 500 else pos_part n

abbrev pub encode_cursor : Row → Cursor
encode_cursor r = after (truncate_micros r.created_at) r.id

abbrev pub state_fits : JobState → Row → Bool
state_fits s r = is_unset s || state_eq r.state s

-- The rows are scanned in turn, and the first error ends the loop.
unfoldable pub scan_jobs : NullText → Db → Result (List Job)
scan_jobs null_text [] = ok []
scan_jobs null_text (r ∷ rows) = do
  job ← scan_job null_text r
  jobs ← scan_jobs null_text rows
  ok (job ∷ jobs)

-- SELECT … WHERE p.
abbrev pub select_rows : (Row → Bool) → Db → Db
select_rows p [] = []
select_rows p (r ∷ rows) = let rest = select_rows p rows in if p r then r ∷ rest else rest

-- `jobs[n-1]`, if there are more than `n`.
abbrev pub last_of_page : ℕ → Db → Option Row
last_of_page n [] = none
last_of_page zero (r ∷ rows) = none
last_of_page (suc zero) (r ∷ []) = none
last_of_page (suc zero) (r ∷ s ∷ rows) = some r
last_of_page (suc (suc n)) (r ∷ rows) = last_of_page (suc n) rows

abbrev pub next_cursor_of : Option Row → Cursor
next_cursor_of none = start
next_cursor_of (some r) = encode_cursor r

-- `text_before` is `<` of the type TEXT.
module _ (text_before : String → String → Bool) where
  -- `(created_at, id) < ($1, $2)`.
  abbrev pub pair_before : Time → String → Time → String → Bool
  pair_before t id u other = ltb t u || (t == u && text_before id other)

  abbrev pub row_before : Row → Row → Bool
  row_before r s = pair_before r.created_at r.id s.created_at s.id

  -- ORDER BY created_at DESC, id DESC.
  unfoldable pub insert_desc : Row → Db → Db
  insert_desc r [] = r ∷ []
  insert_desc r (s ∷ rows) =
      let later = s ∷ insert_desc r rows in if row_before r s then later else r ∷ s ∷ rows

  unfoldable pub sort_desc : Db → Db
  unfolding insert_desc
  sort_desc [] = []
  sort_desc (r ∷ rows) = insert_desc r (sort_desc rows)

  abbrev pub cursor_fits : Cursor → Row → Bool
  cursor_fits (after t id) r = pair_before r.created_at r.id t id
  cursor_fits _ r = true

  -- The rows behind the cursor, before the LIMIT.
  abbrev pub behind : JobState → Cursor → Db → Db
  behind s c db = select_rows (λ r. state_fits s r && cursor_fits c r) (sort_desc db)

  abbrev pub page_of : NullText → ℕ → Db → Result Page
  page_of null_text n rows = do
    jobs ← scan_jobs null_text (take (suc n) rows)
    ok (record {
      jobs = take n jobs;
      next_cursor = next_cursor_of (last_of_page n (take (suc n) rows));
    })

  abbrev pub query_page : NullText → Bool → ListFilter → Db → Result Page
  query_page null_text answers f db =
      if answers
      then page_of null_text (effective_limit f.limit) (behind f.state f.cursor db)
      else err other_error

  -- `answers` tells whether the query is carried out.
  unfoldable pub list_jobs : NullText → Bool → ListFilter → Db → Result Page
  unfolding scan_jobs sort_desc
  list_jobs null_text answers f db = elim f.cursor [
    | malformed ↦ err other_error
    | start ↦ query_page null_text answers f db
    | after t id ↦ query_page null_text answers f db
  ]
