-- ===== src/Store/Listing/Pages.antt =====
-- internal/store/store.go: following the cursors of `ListJobs` gives every job once.
use mathlib.Core.List.{append_assoc}
use go_task_q.Models.{JobState, Job}
use go_task_q.Store.Rows.{err, Row, Result, ok, NullText, ◌>>=◌}
use go_task_q.Store.Table.{Db}
use go_task_q.Store.Unique.{DistinctBy, id_of}
use go_task_q.Store.Listing.{
  last_of_page, page_of, pair_before, cursor_fits, Cursor, start, malformed, encode_cursor,
  state_fits, scan_jobs, select_rows, row_before, sort_desc, behind,
}
use go_task_q.Store.Listing.Scans.{
  scan_jobs-split, scan_jobs-err, Scans-take, take-take, Scans-ok, take-all, length-drop-le, Scans,
  scan_jobs-Scans, Scans-length,
}
use go_task_q.Store.Listing.Order.{
  All-sort_desc, All-select_rows, IsTextOrder, IsDesc, sort_desc-IsDesc, select_rows-IsDesc,
  select_rows-behind,
}
use go_task_q.Base.{
  ◌≤◌, length-append, sym, All-split, ◌∙◌, ◌≢◌, ◌<◌, length, All, Bool, String, arith, inr, zero,
  ap, inl, [], ◌++◌, ◌∷◌, subst, refl, drop, suc, take, ℤ, ℕ, ◌≡◌, List,
}
use go_task_q.Store.Listing.Client.{
  page_before, last_of_page-cases, effective_limit-positive, go_on, IsWhole, follow_pages, matching,
  select_rows-and, behind-start, list_jobs-page_of,
}

shorter :
    (m : ℕ) (rows : Db) (x : Row) (k : ℕ)
    → rows ≡ take m rows ++ x ∷ drop (suc m) rows
    → length rows < suc k
    → length (drop (suc m) rows) < k
shorter m rows x k e h =
    let sized = ap length e ∙ length-append (take m rows) (x ∷ drop (suc m) rows) in
    omega (arith, h, sized, length-drop-le (suc m) rows)

module _ (text_before : String → String → Bool) (null_text : NullText)
    (o : IsTextOrder text_before) where
  behind-after :
      (state : JobState) (db front : Db) (x : Row) (rest : Db)
      → DistinctBy id_of db
      → All IsWhole db
      → matching text_before null_text state db ≡ front ++ x ∷ rest
      → behind text_before state (encode_cursor x) db ≡ rest
  behind-after state db front x rest d w e =
      let sorted =
        select_rows-IsDesc text_before o (state_fits state) (sort_desc text_before db)
          (sort_desc-IsDesc text_before o db d) in
      let whole =
        All-select_rows text_before o IsWhole (state_fits state) (sort_desc text_before db)
          (All-sort_desc text_before o IsWhole db w) in
      let (_, (x_whole, _)) = All-split IsWhole front (x ∷ rest) (subst (All IsWhole) e whole) in
      select_rows-and text_before null_text (state_fits state)
        (cursor_fits text_before (encode_cursor x)) (sort_desc text_before db)
      ∙ ap
          (λ t.
            select_rows (λ r. pair_before text_before r.created_at r.id t x.id)
              (matching text_before null_text state db))
          x_whole
      ∙ ap (select_rows (λ r. row_before text_before r x)) e
      ∙ select_rows-behind text_before o front x rest (subst (IsDesc text_before o) e sorted)

  page_taken :
      (m : ℕ) (rows : Db) (jobs : List Job)
      → scan_jobs null_text (take (suc m) rows) ≡ ok jobs
      → scan_jobs null_text (take m rows) ≡ ok (take m jobs)
  page_taken m rows jobs h = Scans-ok null_text (take m rows) (take m jobs) (
      subst (λ l. Scans null_text l (take m jobs)) (take-take m rows)
        (Scans-take null_text m (take (suc m) rows) jobs
          (scan_jobs-Scans null_text (take (suc m) rows) jobs h)))

  last_page :
      (n : ℕ) (rows : Db) (jobs : List Job)
      → length rows ≤ n
      → scan_jobs null_text (take (suc n) rows) ≡ ok jobs
      → ok (take n jobs) ≡ scan_jobs null_text rows
  last_page n rows jobs short h =
      let all = ap (scan_jobs null_text) (sym (take-all (suc n) rows (omega (arith, short)))) ∙ h in
      ap ok (
        take-all n jobs (
          omega (
            arith,
            short,
            Scans-length null_text rows jobs (scan_jobs-Scans null_text rows jobs all),
          )))
      ∙ sym all

  -- A page and what follows it are all the rows, if what follows it is the rest.
  page-scan_jobs :
      (m : ℕ) (rows : Db) (next : Cursor → Result (List Job)) (o : Result (List Job))
      → scan_jobs null_text (take (suc (suc m)) rows) ≡ o
      → ((x : Row)
          → rows ≡ take m rows ++ x ∷ drop (suc m) rows
          → next (encode_cursor x) ≡ scan_jobs null_text (drop (suc m) rows))
      → (page_of text_before null_text (suc m) rows >>= λ page. go_on page next)
        ≡ scan_jobs null_text rows
  page-scan_jobs m rows next (err e) h more =
      let last = last_of_page (suc m) (take (suc (suc m)) rows) in
      ap (λ s. (s >>= λ jobs. ok (page_before (suc m) jobs last)) >>= λ page. go_on page next) h
      ∙ sym (scan_jobs-err null_text (suc (suc m)) rows e h)
  page-scan_jobs m rows next (ok jobs) h more =
      let last = last_of_page (suc m) (take (suc (suc m)) rows) in
      ap (λ s. (s >>= λ js. ok (page_before (suc m) js last)) >>= λ page. go_on page next) h
      ∙ elim (last_of_page-cases m rows) [
        | inl (none_left, short) ↦
            ap (λ l. go_on (page_before (suc m) jobs l) next) none_left
            ∙ last_page (suc m) rows jobs short h
        | inr (x, left_over, parted) ↦
            ap (λ l. go_on (page_before (suc m) jobs l) next) left_over
            ∙ ap (λ r. r >>= λ rest. ok (take (suc m) jobs ++ rest)) (more x parted)
            ∙ sym (
                scan_jobs-split null_text (suc m) rows (take (suc m) jobs)
                  (page_taken (suc m) rows jobs h))
      ]

  follow-from :
      (k : ℕ) (state : JobState) (limit : ℤ) (cursor : Cursor) (db front rows : Db)
      → DistinctBy id_of db
      → All IsWhole db
      → length rows < k
      → cursor ≢ malformed
      → behind text_before state cursor db ≡ rows
      → matching text_before null_text state db ≡ front ++ rows
      → follow_pages text_before null_text k state limit cursor db ≡ scan_jobs null_text rows
  unfolding follow_pages
  follow-from zero state limit cursor db front rows d w h c b e = absurd (omega (arith, h))
  follow-from (suc k) state limit cursor db front rows d w h c b e =
      let (m, n) = effective_limit-positive limit in
      let next : Cursor → Result (List Job) =
        λ q. follow_pages text_before null_text k state limit q db in
      ap (λ p. p >>= λ page. go_on page next)
        (list_jobs-page_of text_before null_text (suc m) state limit cursor db rows c n b)
      ∙ page-scan_jobs m rows next (scan_jobs null_text (take (suc (suc m)) rows)) refl (λ x parted.
        let split_at =
          e
          ∙ ap (λ r. front ++ r) parted
          ∙ sym (append_assoc front (take m rows) (x ∷ drop (suc m) rows)) in
        follow-from k state limit (encode_cursor x) db ((front ++ take m rows) ++ x ∷ [])
          (drop (suc m) rows) d w (shorter m rows x k parted h) (λ q. cc)
          (behind-after state db (front ++ take m rows) x (drop (suc m) rows) d w split_at)
          (split_at ∙ sym (append_assoc (front ++ take m rows) (x ∷ []) (drop (suc m) rows))))

  -- From a table that nobody writes to in the meantime, whose rows have distinct identifiers and
  -- whole microseconds: a client that starts without a cursor and follows the cursors of
  -- `ListJobs` until there is none gets what a single scan of all rows of the state that it asks for
  -- gives, by creation time and identifier, latest first, whatever the limit, and is done after at
  -- most one request more than there are such rows. So it gets every job exactly once if the driver
  -- can read each of these rows, and else an error, as from a driver that refuses NULL texts for the
  -- row of a pending job.
  pub follow_pages-matching :
      (state : JobState) (limit : ℤ) (db : Db) (k : ℕ)
      → DistinctBy id_of db
      → All IsWhole db
      → length (matching text_before null_text state db) < k
      → (follow_pages text_before null_text k state limit start db
          ≡ scan_jobs null_text (matching text_before null_text state db))
        × IsDesc text_before o (matching text_before null_text state db)
  follow_pages-matching state limit db k d w h = (
    follow-from k state limit start db [] (matching text_before null_text state db) d w h (λ q. cc)
        (behind-start text_before null_text state db) refl,
    select_rows-IsDesc text_before o (state_fits state) (sort_desc text_before db)
        (sort_desc-IsDesc text_before o db d),
  )
