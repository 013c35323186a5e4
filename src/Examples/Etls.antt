-- ===== src/Examples/Etls.antt =====
-- internal/etl/executor.go: a pipeline over ASCII texts.
use go_task_q.Etl.{Text, IsText, ascii_letter, ascii_digit, valid}
use go_task_q.Etl.Lexer.{step, lex, sql_tokens}
use go_task_q.Etl.Lexer.Pieces.{symbol, quoted, block, Statement}
use go_task_q.Etl.Extract.{is_forbidden, normalize_extract_sql}
use go_task_q.Etl.Insert.{valid_identifier_part, parse_identifier, PipelineSpec, build_insert_sql}
use go_task_q.Etl.Insert.Names.{in_quotes, IsSanitizer}
use go_task_q.Etl.Insert.Quoted.{IsQuoted}
use go_task_q.Etl.Handler.{exec_failed, parse_spec, permanent, EtlError, handler, Exec}
use go_task_q.Etl.Handler.Endings.{handler-permanent, handler-IsQuoted}
use mathlib.Core.List.{Memᴰ}
use go_task_q.Base.{
  ap, is_some, ◌↔◌, sym, some, true, ◌++◌, Option, subst, map, [], join, false, ◌∷◌, Bytes, refl,
  List, codes, ◌≡◌,
}

abbrev ascii : Text
ascii = record {
  trim_space = λ s. s;
  to_lower = λ s. s;
  runes = λ s. s;
  is_letter = ascii_letter;
  is_digit = ascii_digit;
}

ascii-IsText : IsText ascii
ascii-IsText = record {
  letter_ascii = λ c h. refl;
  digit_ascii = λ c h. refl;
  runes_ascii = λ c s h m. m;
}

abbrev dotted : List Bytes → Bytes
dotted parts = join (b'.' ∷ []) (map in_quotes parts)

dotted-IsSanitizer : IsSanitizer dotted
dotted-IsSanitizer = record { quotes = λ parts h. refl }

-- select 'drop' from/* insert */t
abbrev harmless : Statement
harmless = record {
  parts =
      (codes "select", symbol b' ')
      ∷ ([], quoted (codes "drop"))
      ∷ (codes "from", block (codes " insert "))
      ∷ [];
  last = codes "t";
}

-- An upsert of one column.
abbrev copy_ids : PipelineSpec
copy_ids = record {
  extract_sql = codes "select id from a";
  target_table = codes "public.b";
  target_columns = codes "id" ∷ codes "n" ∷ [];
  write_mode = codes "upsert";
  conflict_columns = codes "id" ∷ [];
  update_columns = [];
}

abbrev decode : Bytes → Option PipelineSpec
decode payload = some copy_ids

abbrev refusing : Option Exec
refusing = some (λ s. some (codes "no such table"))

abbrev copy_statement : Bytes
copy_statement =
    codes "INSERT INTO \"public\".\"b\" (\"id\", \"n\")\nselect id from a"
    ++ codes "\nON CONFLICT (\"id\") DO UPDATE SET \"n\" = EXCLUDED.\"n\""

copy_sent :
    handler ascii dotted decode refusing (codes "{}")
    ≡ (copy_statement ∷ [], some (exec_failed (codes "no such table")))
unfolding handler parse_spec build_insert_sql parse_identifier valid_identifier_part
    normalize_extract_sql sql_tokens lex step is_forbidden go_task_q.Base.bytes_eq
    go_task_q.Base.split go_task_q.Base.has_prefix
copy_sent = refl

handler-IsQuoted_example :
    (spec : PipelineSpec) × (parse_spec ascii decode (codes "{}") ≡ valid spec)
    × IsQuoted ascii spec copy_statement
handler-IsQuoted_example =
    handler-IsQuoted ascii dotted decode ascii-IsText dotted-IsSanitizer refusing (codes "{}")
      copy_statement
      (subst (λ (r : List Bytes × Option EtlError). Memᴰ copy_statement r.0) (sym copy_sent)
        (Memᴰ.head refl))

handler-permanent_example :
    (permanent (exec_failed (codes "no such table")) ≡ true)
    ↔ ((p : Option Exec) → is_some (handler ascii dotted decode p (codes "{}")).1 ≡ true)
handler-permanent_example =
    handler-permanent ascii dotted decode refusing (codes "{}")
      (exec_failed (codes "no such table"))
      (ap (λ (r : List Bytes × Option EtlError). r.1) copy_sent)
