-- ===== src/Etl/Handler/Endings.antt =====
-- internal/etl/executor.go: what `Handler` sends and which of its errors are permanent.
use go_task_q.Etl.{Text, IsText, Checked, valid, invalid, bind-valid}
use go_task_q.Etl.Handler.{
  parse_spec, permanent, EtlError, Exec, exec_error, execute, statement_for, handler,
}
use go_task_q.Etl.Insert.{PipelineSpec, build_insert_sql}
use go_task_q.Etl.Insert.Names.{IsSanitizer}
use go_task_q.Etl.Insert.Quoted.{IsQuoted, build-IsQuoted}
use mathlib.Core.List.{Memᴰ}
use mathlib.Core.Bool.{false≢true}
use go_task_q.Base.{
  refl, ◌∙◌, eq_of_some, is_some, sym, ◌↔◌, true, false, ap, none, ◌≡◌, some, Bytes, List, Option,
}

execute-sent :
    (pool : Option Exec) (m : Checked Bytes) (out : Bytes)
    → Memᴰ out (execute pool m).0
    → m ≡ valid out
execute-sent pool (invalid e) out h = elim h [ ]
execute-sent none (valid s) out h = elim h [ ]
execute-sent (some exec) (valid s) out (Memᴰ.head e) = ap valid (sym e)
execute-sent (some exec) (valid s) out (Memᴰ.tail m) = elim m [ ]

abbrev always_ok : Option Exec
always_ok = some (λ s. none)

exec_error-temporary :
    (o : Option Bytes) (e : EtlError) → exec_error o ≡ some e → permanent e ≡ false
exec_error-temporary none e h = cc
exec_error-temporary (some text) e h = sym (ap permanent (eq_of_some h))

execute-permanent :
    (pool : Option Exec) (m : Checked Bytes) (e : EtlError)
    → (execute pool m).1 ≡ some e
    → (permanent e ≡ true) ↔ ((p : Option Exec) → is_some (execute p m).1 ≡ true)
execute-permanent pool (invalid s) e h = ((λ _ p. refl), λ _. sym (ap permanent (eq_of_some h)))
execute-permanent none (valid s) e h = (
  (λ t. absurd (false≢true (ap permanent (eq_of_some h) ∙ t))),
  λ all. absurd (false≢true (all always_ok)),
)
execute-permanent (some exec) (valid s) e h = (
  (λ t. absurd (false≢true (sym (exec_error-temporary (exec s) e h) ∙ t))),
  λ all. absurd (false≢true (all always_ok)),
)

module _ (t : Text) (sanitize : List Bytes → Bytes) (decode : Bytes → Option PipelineSpec) where
  -- When `Handler` ends in an error, the error is permanent exactly when `Handler` ends in an error
  -- on this payload whatever Postgres answers, with a connection or without one.
  pub handler-permanent :
      (pool : Option Exec) (payload : Bytes) (e : EtlError)
      → (handler t sanitize decode pool payload).1 ≡ some e
      → (permanent e ≡ true)
        ↔ ((p : Option Exec) → is_some (handler t sanitize decode p payload).1 ≡ true)
  unfolding handler
  handler-permanent pool payload e h =
      execute-permanent pool (statement_for t sanitize decode payload) e h

  -- A statement that `Handler` sends to Postgres is the text INSERT INTO, table, columns and query of
  -- the pipeline that the payload holds, and in the write mode "upsert" ON CONFLICT with the conflict
  -- columns and DO UPDATE SET with one assignment from EXCLUDED for each updated column: those that
  -- the pipeline names, or else its target columns that are no conflict columns. Every name stands in
  -- quotes and holds neither a quote nor a NUL, the query is what `normalizeExtractSQL` let through,
  -- and the mode is "upsert", "append" or empty, without its blanks and in lower case.
  pub handler-IsQuoted :
      (l : IsText t) (z : IsSanitizer sanitize) (pool : Option Exec) (payload out : Bytes)
      → Memᴰ out (handler t sanitize decode pool payload).0
      → (spec : PipelineSpec) × (parse_spec t decode payload ≡ valid spec) × IsQuoted t spec out
  unfolding handler
  handler-IsQuoted l z pool payload out h =
      let (spec, parsed, built) =
        bind-valid (parse_spec t decode payload) (build_insert_sql t sanitize)
          (execute-sent pool (statement_for t sanitize decode payload) out h) in
      (spec, parsed, build-IsQuoted t l sanitize z spec out built)
