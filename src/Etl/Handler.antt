-- ===== src/Etl/Handler.antt =====
-- internal/etl/executor.go: `ParseSpec` and `Handler`. What `json.Unmarshal` makes of the payload and
-- what Postgres answers are parameters.
pub mod Endings
use go_task_q.Etl.{
  ◌>>=◌, Text, Checked, valid, invalid, SpecError, payload_required, not_json, sql_required,
  table_required, columns_required, bad_write_mode, conflict_columns_required,
}
use go_task_q.Etl.Insert.{PipelineSpec, build_insert_sql, is_upsert, is_empty}
use go_task_q.Base.{
  ◌&&◌, none, bytes_eq, false, ◌∷◌, codes, [], not, true, some, map, Bool, List, Option, Bytes,
  if◌then◌else◌,
}

module _ (t : Text) where
  abbrev pub trim_spec : PipelineSpec → PipelineSpec
  trim_spec spec = record {
    extract_sql = t.trim_space spec.extract_sql;
    target_table = t.trim_space spec.target_table;
    target_columns = map t.trim_space spec.target_columns;
    write_mode = t.trim_space (t.to_lower spec.write_mode);
    conflict_columns = map t.trim_space spec.conflict_columns;
    update_columns = map t.trim_space spec.update_columns;
  }

  abbrev pub default_mode : PipelineSpec → PipelineSpec
  default_mode spec =
      if is_empty spec.write_mode then record spec { write_mode = codes "append" } else spec

  abbrev pub check_write_mode : PipelineSpec → Checked PipelineSpec
  check_write_mode spec =
      if not (bytes_eq spec.write_mode (codes "append")) && not (is_upsert spec.write_mode)
      then invalid bad_write_mode
      else if is_upsert spec.write_mode && is_empty spec.conflict_columns
      then invalid conflict_columns_required
      else valid spec

  abbrev pub check_spec : PipelineSpec → Checked PipelineSpec
  check_spec spec =
      if is_empty spec.extract_sql
      then invalid sql_required
      else if is_empty spec.target_table
      then invalid table_required
      else if is_empty spec.target_columns
      then invalid columns_required
      else check_write_mode (default_mode spec)

  abbrev pub check_decoded : Option PipelineSpec → Checked PipelineSpec
  check_decoded none = invalid not_json
  check_decoded (some spec) = check_spec (trim_spec spec)

  unfoldable pub parse_spec : (Bytes → Option PipelineSpec) → Bytes → Checked PipelineSpec
  parse_spec decode payload =
      if is_empty payload then invalid payload_required else check_decoded (decode payload)

pub data EtlError : Type 0 where
  bad_spec : SpecError → EtlError
  no_pool : EtlError
  exec_failed : Bytes → EtlError

-- `errors.Is(err, retry.ErrNoRetry)`.
abbrev pub permanent : EtlError → Bool
permanent (bad_spec e) = true
permanent _ = false

-- What Postgres answers to a statement: nothing, or the text of an error.
abbrev pub Exec : Type 0
Exec = Bytes → Option Bytes

abbrev pub exec_error : Option Bytes → Option EtlError
exec_error none = none
exec_error (some text) = some (exec_failed text)

-- The statements that are sent, and the error.
abbrev pub execute : Option Exec → Checked Bytes → List Bytes × Option EtlError
execute pool (invalid e) = ([], some (bad_spec e))
execute none (valid statement) = ([], some no_pool)
execute (some exec) (valid statement) = (statement ∷ [], exec_error (exec statement))

module _ (t : Text) (sanitize : List Bytes → Bytes) (decode : Bytes → Option PipelineSpec) where
  abbrev pub statement_for : Bytes → Checked Bytes
  statement_for payload = do spec ← parse_spec t decode payload; build_insert_sql t sanitize spec

  unfoldable pub handler : Option Exec → Bytes → List Bytes × Option EtlError
  handler pool payload = execute pool (statement_for payload)
