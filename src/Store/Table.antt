-- ===== src/Store/Table.antt =====
-- The table as a list of rows, in the order in which the database happens to visit them, with the
-- parts of SQL that the statements of internal/store/store.go are made of.
use go_task_q.Base.{
  ℕ, suc, Bool, true, false, Option, none, some, List, [], ◌∷◌, if◌then◌else◌, leb,
}
use go_task_q.Store.Rows.{Row, Result, ok, err, other_error, Answer, done, refused, lost}

abbrev pub Db : Type 0
Db = List Row

-- SELECT … WHERE p, for a condition that one row meets at most.
unfoldable pub find_row : (Row → Bool) → Db → Option Row
find_row p [] = none
find_row p (r ∷ db) = let rest = find_row p db in if p r then some r else rest

-- UPDATE … SET f WHERE p.
unfoldable pub update_rows : (Row → Bool) → (Row → Row) → Db → Db
update_rows p f [] = []
update_rows p f (r ∷ db) = (if p r then f r else r) ∷ update_rows p f db

-- The number of rows that an UPDATE touches.
unfoldable pub count_rows : (Row → Bool) → Db → ℕ
count_rows p [] = 0
count_rows p (r ∷ db) = if p r then suc (count_rows p db) else count_rows p db

-- What the caller sees of a statement, and what becomes of the table.
unfoldable pub deliver {ℓ} : {A : Type ℓ} → Answer → Result A × Db → Db → Result A × Db
deliver done outcome db = outcome
deliver refused outcome db = (err other_error, db)
deliver lost outcome db = (err other_error, outcome.1)

-- `Pool.Exec` of an UPDATE, with the number of rows affected.
unfoldable pub exec_update : Answer → (Row → Bool) → (Row → Row) → Db → Result ℕ × Db
unfolding deliver
exec_update a p f db = deliver a (ok (count_rows p db), update_rows p f db) db

-- SELECT … WHERE p ORDER BY key ASC NULLS LAST LIMIT 1; among equal keys the first row visited.
abbrev pub earlier : Option ℕ → Option ℕ → Bool
earlier none none = true
earlier none (some s) = false
earlier (some r) none = true
earlier (some r) (some s) = leb r s

-- The row is the earlier of the two, by a key.
abbrev pub better : (Row → Option ℕ) → Row → Option Row → Option Row
better key r none = some r
better key r (some s) = if earlier (key r) (key s) then some r else some s

unfoldable pub first_row : (Row → Bool) → (Row → Option ℕ) → Db → Option Row
first_row p key [] = none
first_row p key (r ∷ db) = let rest = first_row p key db in if p r then better key r rest else rest

-- ORDER BY key ASC, as an insertion into what is sorted already.
unfoldable pub insert_sorted : (Row → Option ℕ) → Row → Db → Db
insert_sorted key r [] = r ∷ []
insert_sorted key r (s ∷ db) =
    let later = s ∷ insert_sorted key r db in if earlier (key r) (key s) then r ∷ s ∷ db else later

unfoldable pub sort_rows : (Row → Bool) → (Row → Option ℕ) → Db → Db
unfolding insert_sorted
sort_rows p key [] = []
sort_rows p key (r ∷ db) =
    let rest = sort_rows p key db in if p r then insert_sorted key r rest else rest
