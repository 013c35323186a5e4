-- ===== src/Etl/Insert.antt =====
-- internal/etl/executor.go: `BuildInsertSQL`, with the identifiers it lets through. pgx's
-- `Identifier.Sanitize` is a parameter.
pub mod Names
pub mod Built
pub mod Quoted
use go_task_q.Etl.{
  ◌>>=◌, bad_identifier, conflict_columns_required, too_many_parts, update_columns_required,
  bad_write_mode, qualified_column, Text, Checked, valid, invalid,
}
use go_task_q.Etl.Extract.{normalize_extract_sql}
use go_task_q.Base.{
  join, length, ◌||◌, all, false, true, [], map, not, any, ◌&&◌, ltb, ◌==◌, bytes_eq, ℕ,
  if◌then◌else◌, Bool, split, codes, ◌∷◌, ◌++◌, List, Bytes,
}

pub record PipelineSpec : Type 0 where
  pub extract_sql : Bytes
  pub target_table : Bytes
  pub target_columns : List Bytes
  pub write_mode : Bytes
  pub conflict_columns : List Bytes
  pub update_columns : List Bytes

abbrev pub is_empty {ℓ} : {A : Type ℓ} → List A → Bool
is_empty [] = true
is_empty (x ∷ xs) = false

-- `append` in a loop that stops at the first error.
abbrev pub check_all : (Bytes → Checked Bytes) → List Bytes → Checked (List Bytes)
check_all f [] = valid []
check_all f (s ∷ ss) = do r ← f s; rs ← check_all f ss; valid (r ∷ rs)

-- `nonConflictColumns`: a map is asked for each column.
abbrev pub non_conflict_columns : List Bytes → List Bytes → List Bytes
non_conflict_columns [] conflicts = []
non_conflict_columns (c ∷ cs) conflicts =
    let rest = non_conflict_columns cs conflicts in
    if any (bytes_eq c) conflicts then rest else c ∷ rest

abbrev pub is_upsert : Bytes → Bool
is_upsert mode = bytes_eq mode (codes "upsert")

abbrev pub assignment : Bytes → Bytes
assignment column = column ++ codes " = EXCLUDED." ++ column

abbrev pub insert_text : Bytes → List Bytes → Bytes → Bytes
insert_text table columns sql =
    codes "INSERT INTO " ++ table ++ codes " (" ++ join (codes ", ") columns ++ codes ")\n" ++ sql

abbrev pub upsert_text : List Bytes → List Bytes → Bytes
upsert_text conflicts updates =
    codes "\nON CONFLICT ("
    ++ join (codes ", ") conflicts
    ++ codes ") DO UPDATE SET "
    ++ join (codes ", ") (map assignment updates)

module _ (t : Text) (sanitize : List Bytes → Bytes) where
  abbrev pub first_rune : ℕ → Bool
  first_rune r = r == b'_' || t.is_letter r

  abbrev pub later_rune : ℕ → Bool
  later_rune r = r == b'_' || t.is_letter r || t.is_digit r

  abbrev pub valid_runes : List ℕ → Bool
  valid_runes [] = true
  valid_runes (r ∷ rs) = first_rune r && all later_rune rs

  unfoldable pub valid_identifier_part : Bytes → Bool
  valid_identifier_part value = not (is_empty value) && valid_runes (t.runes value)

  -- Split never gives no part.
  unfoldable pub parse_identifier : Bytes → Checked (List Bytes)
  unfolding valid_identifier_part
  parse_identifier value =
      let parts = split b'.' value in
      if ltb 3 (length parts)
      then invalid too_many_parts
      else if all valid_identifier_part parts
      then valid parts
      else invalid bad_identifier

  abbrev pub unqualified : List Bytes → Checked Bytes
  unqualified (part ∷ []) = valid (sanitize (part ∷ []))
  unqualified _ = invalid qualified_column

  abbrev pub sanitize_unqualified : Bytes → Checked Bytes
  sanitize_unqualified column = do identifier ← parse_identifier column; unqualified identifier

  abbrev pub mode_of : Bytes → Bytes
  mode_of write_mode =
      let mode = t.trim_space (t.to_lower write_mode) in
      if is_empty mode then codes "append" else mode

  abbrev pub check_mode : Bytes → List Bytes → Checked Bytes
  check_mode mode conflicts =
      if not (bytes_eq mode (codes "append")) && not (is_upsert mode)
      then invalid bad_write_mode
      else if is_upsert mode && is_empty conflicts
      then invalid conflict_columns_required
      else valid mode

  abbrev pub update_columns_of : Bytes → PipelineSpec → List Bytes
  update_columns_of mode spec =
      if is_upsert mode && is_empty spec.update_columns
      then non_conflict_columns spec.target_columns spec.conflict_columns
      else spec.update_columns

  abbrev pub need_updates : Bytes → List Bytes → Checked (List Bytes)
  need_updates mode updates =
      if is_upsert mode && is_empty updates then invalid update_columns_required else valid updates

  abbrev pub statement_of : Bytes → Bytes → List Bytes → List Bytes → List Bytes → Bytes → Bytes
  statement_of mode table columns conflicts updates sql =
      insert_text table columns sql
      ++ (if is_upsert mode then upsert_text conflicts updates else [])

  unfoldable pub build_insert_sql : PipelineSpec → Checked Bytes
  unfolding parse_identifier normalize_extract_sql
  build_insert_sql spec = do
    mode ← check_mode (mode_of spec.write_mode) spec.conflict_columns
    table ← parse_identifier spec.target_table
    columns ← check_all sanitize_unqualified spec.target_columns
    conflicts ← check_all sanitize_unqualified spec.conflict_columns
    sanitized ← check_all sanitize_unqualified (update_columns_of mode spec)
    updates ← need_updates mode sanitized
    sql ← normalize_extract_sql t spec.extract_sql
    valid (statement_of mode (sanitize table) columns conflicts updates sql)
