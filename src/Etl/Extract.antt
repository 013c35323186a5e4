-- ===== src/Etl/Extract.antt =====
-- internal/etl/executor.go: `normalizeExtractSQL`, which lets only queries through.
pub mod Safe
use go_task_q.Etl.{Text, Checked, valid, invalid, not_a_query, empty_sql, forbidden_token}
use go_task_q.Etl.Lexer.{sql_tokens}
use go_task_q.Base.{
  ◌||◌, codes, ◌==◌, none, [], bytes_eq, some, has_prefix, any, ◌∷◌, Option, Bool, String,
  if◌then◌else◌, List, Bytes,
}

abbrev pub forbidden_words : List String
forbidden_words =
    "insert" ∷ "update" ∷ "delete" ∷ "merge" ∷ "create" ∷ "alter" ∷ "drop" ∷ "truncate" ∷ "copy"
    ∷ "grant" ∷ "revoke" ∷ "call" ∷ "do" ∷ "vacuum" ∷ "analyze" ∷ []

unfoldable pub is_forbidden : Bytes → Bool
is_forbidden token = any (λ w. bytes_eq (codes w) token) forbidden_words

abbrev pub starts_query : Bytes → Bool
starts_query token = bytes_eq token (codes "select") || bytes_eq token (codes "with")

-- `strings.TrimSuffix(sql, ";")`.
abbrev pub trim_semicolon : Bytes → Bytes
trim_semicolon [] = []
trim_semicolon (c ∷ []) = if c == b';' then [] else c ∷ []
trim_semicolon (c ∷ d ∷ s) = c ∷ trim_semicolon (d ∷ s)

abbrev pub first_forbidden : List Bytes → Option Bytes
first_forbidden [] = none
first_forbidden (token ∷ tokens) =
    let rest = first_forbidden tokens in if is_forbidden token then some token else rest

abbrev pub refuse_forbidden : Bytes → Option Bytes → Checked Bytes
refuse_forbidden sql none = valid sql
refuse_forbidden sql (some token) = invalid (forbidden_token token)

abbrev pub check_tokens : Bytes → List Bytes → Checked Bytes
check_tokens sql [] = invalid empty_sql
check_tokens sql (token ∷ tokens) =
    if starts_query token
    then refuse_forbidden sql (first_forbidden (token ∷ tokens))
    else invalid not_a_query

module _ (t : Text) where
  abbrev pub trimmed : Bytes → Bytes
  trimmed sql = t.trim_space (trim_semicolon (t.trim_space sql))

  abbrev pub begins_query : Bytes → Bool
  begins_query sql =
      has_prefix (codes "select ") (t.to_lower sql) || has_prefix (codes "with ") (t.to_lower sql)

  unfoldable pub normalize_extract_sql : Bytes → Checked Bytes
  unfolding sql_tokens is_forbidden
  normalize_extract_sql sql =
      if begins_query (trimmed sql)
      then check_tokens (trimmed sql) (sql_tokens t (trimmed sql))
      else invalid not_a_query
