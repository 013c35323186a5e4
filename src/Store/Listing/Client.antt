-- ===== src/Store/Listing/Client.antt =====
-- internal/store/store.go: a client that follows the cursors of `ListJobs`, page by page.
use go_task_q.Models.{JobState, Job}
use go_task_q.Time.{truncate_micros}
use go_task_q.Store.Rows.{other_error, Row, Result, ok, err, NullText, ◌>>=◌}
use go_task_q.Store.Table.{Db}
use go_task_q.Store.Listing.{
  Cursor, start, malformed, after, Page, effective_limit, state_fits, select_rows, last_of_page,
  next_cursor_of, sort_desc, behind, page_of, list_jobs,
}
use go_task_q.Base.{
  Option, ◌≤◌, ◌∙◌, ◌≢◌, length, ◌&&◌, true, Bool, String, arith, ◌-◌, pos_part, ltb, inr, zero,
  pos, leb_ℤ, ap, inl, [], Bool-cases, none, ◌++◌, ◌⊎◌, ◌∷◌, some, refl, drop, suc, take, ℤ, ℕ, ◌≡◌,
  List,
}

abbrev pub page_before : ℕ → List Job → Option Row → Page
page_before n jobs last = record { jobs = take n jobs; next_cursor = next_cursor_of last }

-- Either the page takes all rows, or its last row stands before the rest.
abbrev pub LastPage : ℕ → Db → Type 0
LastPage n rows = (last_of_page n (take (suc n) rows) ≡ none) × (length rows ≤ n)

abbrev pub MorePages : ℕ → ℕ → Db → Type 0
MorePages m n rows =
    (x : Row) × (last_of_page n (take (suc n) rows) ≡ some x)
    × (rows ≡ take m rows ++ x ∷ drop n rows)

pub last_of_page-cases : (m : ℕ) (rows : Db) → LastPage (suc m) rows ⊎ MorePages m (suc m) rows
last_of_page-cases m [] = inl (refl, omega arith)
last_of_page-cases zero (r ∷ []) = inl (refl, omega arith)
last_of_page-cases zero (r ∷ s ∷ rows) = inr (r, refl, refl)
last_of_page-cases (suc m) (r ∷ rows) = elim (last_of_page-cases m rows) [
  | inl (e, q) ↦ inl (e, omega (arith, q))
  | inr (x, e, parted) ↦ inr (x, e, ap (λ s. r ∷ s) parted)
]

pub effective_limit-positive : (n : ℤ) → (m : ℕ) × (effective_limit n ≡ suc m)
effective_limit-positive n = elim (Bool-cases (leb_ℤ n (pos 0))) [
  | inl t ↦ (49, rw t refl)
  | inr f ↦ elim (Bool-cases (ltb 500 (pos_part n))) [
    | inl t ↦ (499, rw (f, t) refl)
    | inr g ↦ (pos_part n - 1, rw (f, g) (ground (arith, f)))
  ]
]

abbrev pub go_on : Page → (Cursor → Result (List Job)) → Result (List Job)
go_on page follow = elim page.next_cursor [
  | start ↦ ok page.jobs
  | malformed ↦ err other_error
  | after t id ↦ do rest ← follow (after t id); ok (page.jobs ++ rest)
]

-- A creation time as the column keeps it.
abbrev pub IsWhole : Row → Type 0
IsWhole r = truncate_micros r.created_at ≡ r.created_at

module _ (text_before : String → String → Bool) (null_text : NullText) where
  -- A client that asks for page after page, in at most so many requests, while the table stays.
  unfoldable pub follow_pages : ℕ → JobState → ℤ → Cursor → Db → Result (List Job)
  unfolding list_jobs
  follow_pages zero state limit cursor db = err other_error
  follow_pages (suc k) state limit cursor db =
      let follow : Cursor → Result (List Job) = λ c. follow_pages k state limit c db in
      do
        page ←
            list_jobs text_before null_text true
              (record { state = state; limit = limit; cursor = cursor }) db
        go_on page follow

  abbrev pub matching : JobState → Db → Db
  matching state db = select_rows (state_fits state) (sort_desc text_before db)

  pub select_rows-and :
      (p q : Row → Bool) (rows : Db)
      → select_rows (λ r. p r && q r) rows ≡ select_rows q (select_rows p rows)
  select_rows-and p q [] = refl
  select_rows-and p q (r ∷ rows) =
      let rest = select_rows-and p q rows in
      elim (Bool-cases (p r)) [
        | inr f ↦ rw f rest
        | inl t ↦ elim (Bool-cases (q r)) [
          | inl u ↦ rw (t, u) (ap (λ s. r ∷ s) rest)
          | inr f ↦ rw (t, f) rest
        ]
      ]

  select_rows-true : (rows : Db) → select_rows (λ r. true) rows ≡ rows
  select_rows-true [] = refl
  select_rows-true (r ∷ rows) = ap (λ s. r ∷ s) (select_rows-true rows)

  pub behind-start :
      (state : JobState) (db : Db) → behind text_before state start db ≡ matching state db
  behind-start state db =
      select_rows-and (state_fits state) (λ r. true) (sort_desc text_before db)
      ∙ select_rows-true (matching state db)

  list_jobs-page :
      (state : JobState) (limit : ℤ) (cursor : Cursor) (db : Db)
      → cursor ≢ malformed
      → list_jobs text_before null_text true
          (record { state = state; limit = limit; cursor = cursor })
          db
        ≡ page_of text_before null_text (effective_limit limit) (behind text_before state cursor db)
  unfolding list_jobs
  list_jobs-page state limit start db c = refl
  list_jobs-page state limit malformed db c = absurd (c refl)
  list_jobs-page state limit (after t id) db c = refl

  pub list_jobs-page_of :
      (n : ℕ) (state : JobState) (limit : ℤ) (cursor : Cursor) (db rows : Db)
      → cursor ≢ malformed
      → effective_limit limit ≡ n
      → behind text_before state cursor db ≡ rows
      → list_jobs text_before null_text true
          (record { state = state; limit = limit; cursor = cursor })
          db
        ≡ page_of text_before null_text n rows
  list_jobs-page_of n state limit cursor db rows c e b =
      list_jobs-page state limit cursor db c
      ∙ ap (λ l. page_of text_before null_text l (behind text_before state cursor db)) e
      ∙ ap (page_of text_before null_text n) b
