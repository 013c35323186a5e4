-- ===== src/Examples/Listings.antt =====
-- internal/store/store.go: three jobs in pages of one.
use Prim.Native.Char.{code}
use Prim.Native.String.{String}
use text.Mathlib.TextEquality.{Char-path}
use go_task_q.Examples.Data.{differ, a_job, a_row}
use go_task_q.Models.{Job, other}
use go_task_q.Store.Rows.{Row, ok}
use go_task_q.Store.Table.{Db}
use go_task_q.Store.Unique.{DistinctBy, id_of}
use go_task_q.Store.Listing.{scan_jobs, sort_desc, start}
use go_task_q.Store.Listing.Pages.{follow_pages-matching}
use go_task_q.Store.Listing.Client.{follow_pages, matching}
use go_task_q.Store.Listing.Order.{IsTextOrder, IsDesc}
use go_task_q.Base.{
  ◌<◌, sym, length, eq_of_some, [], pos, List, ◌∷◌, some, ◌∙◌, ap, ==_iff, inl, inr, ◌&&◌, refl,
  ◌||◌, ◌==◌, Bool-cases, arith, ltb, false, true, ◌≢◌, Bool, ◌≡◌,
}

-- The order of the code points.
unfoldable text_before : String → String → Bool
text_before s String.[] = false
text_before String.[] (String.◌∷◌ d t) = true
text_before (String.◌∷◌ c s) (String.◌∷◌ d t) =
    ltb (code c) (code d) || (code c == code d && text_before s t)

irreflexive_lem : (a : String) → text_before a a ≡ false
unfolding text_before
irreflexive_lem String.[] = refl
irreflexive_lem (String.◌∷◌ c s) = let rest = irreflexive_lem s in ground (arith, rest)

transitive_lem :
    (a b c : String) → text_before a b ≡ true → text_before b c ≡ true → text_before a c ≡ true
unfolding text_before
transitive_lem a b String.[] h k = cc
transitive_lem String.[] b (String.◌∷◌ e u) h k = refl
transitive_lem (String.◌∷◌ c s) String.[] (String.◌∷◌ e u) h k = cc
transitive_lem (String.◌∷◌ c s) (String.◌∷◌ d t) (String.◌∷◌ e u) h k =
    let rest = transitive_lem s t u in ground (arith, h, k, rest)

total_lem : (a b : String) → a ≢ b → text_before a b ≡ false → text_before b a ≡ true
unfolding text_before
total_lem String.[] String.[] n h = absurd (n refl)
total_lem String.[] (String.◌∷◌ d t) n h = cc
total_lem (String.◌∷◌ c s) String.[] n h = refl
total_lem (String.◌∷◌ c s) (String.◌∷◌ d t) n h = elim (Bool-cases (code c == code d)) [
  | inr f ↦ ground (arith, f, h)
  | inl e ↦
      let same = Char-path c d ((==_iff (code c) (code d)).0 e) in
      let rest =
        total_lem s t (λ q. n (ap (λ x. String.◌∷◌ x s) same ∙ ap (λ x. String.◌∷◌ d x) q))
          (ground (arith, e, h)) in
      ground (arith, e, rest)
]

text_before-IsTextOrder : IsTextOrder text_before
text_before-IsTextOrder = record {
  irreflexive = irreflexive_lem;
  transitive = transitive_lem;
  total = total_lem;
}

abbrev newer_row : Row
newer_row = record a_row { id = "b" }

abbrev newest_row : Row
newest_row = record a_row { id = "c"; created_at = 9000 }

abbrev three_rows : Db
three_rows = newer_row ∷ newest_row ∷ a_row ∷ []

abbrev three_jobs : List Job
three_jobs = record a_job { id = "c"; created_at = 9000 } ∷ record a_job { id = "b" } ∷ a_job ∷ []

three_rows-DistinctBy : DistinctBy id_of three_rows
three_rows-DistinctBy = (
  (
    (λ (k, p, q). differ "b" "c" refl (eq_of_some (p ∙ sym q))),
    ((λ (k, p, q). differ "b" "a" refl (eq_of_some (p ∙ sym q))), tt),
  ),
  (((λ (k, p, q). differ "c" "a" refl (eq_of_some (p ∙ sym q))), tt), (tt, tt)),
)

three_scan :
    scan_jobs (some "") (matching text_before (some "") (other "") three_rows) ≡ ok three_jobs
unfolding scan_jobs sort_desc text_before go_task_q.Store.Rows.scan_job
three_scan = refl

three_length : length (matching text_before (some "") (other "") three_rows) < 4
unfolding sort_desc text_before
three_length = omega arith

follow_pages-matching_example :
    (follow_pages text_before (some "") 4 (other "") (pos 1) start three_rows
      ≡ scan_jobs (some "") (matching text_before (some "") (other "") three_rows))
    × IsDesc text_before text_before-IsTextOrder
        (matching text_before (some "") (other "") three_rows)
follow_pages-matching_example =
    follow_pages-matching text_before (some "") text_before-IsTextOrder (other "") (pos 1)
      three_rows 4 three_rows-DistinctBy (refl, (refl, (refl, tt))) three_length
