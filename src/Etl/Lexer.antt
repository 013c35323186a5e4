-- ===== src/Etl/Lexer.antt =====
-- internal/etl/executor.go: `sqlTokens`, the words of a statement outside quotes and comments.
pub mod Pieces
pub mod Words
use go_task_q.Etl.{Text}
use go_task_q.Base.{
  ◌&&◌, ◌==◌, true, ◌++◌, ◌||◌, ◌∷◌, false, if◌then◌else◌, [], Bytes, List, ℕ, Bool,
}

pub data Mode : Type 0 where
  plain line_comment block_comment single_quote double_quote : Mode

-- One turn of the loop: the tokens appended, the mode, the builder, and whether `i++` skips the
-- next byte.
pub record Step : Type 0 where
  pub out : List Bytes
  pub mode : Mode
  pub buf : Bytes
  pub skips : Bool

module _ (t : Text) where
  abbrev pub is_word : ℕ → Bool
  is_word c = t.is_letter c || t.is_digit c || c == b'_'

  abbrev pub flush : Bytes → List Bytes
  flush [] = []
  flush buf = t.to_lower buf ∷ []

  abbrev pub stay : Mode → Bytes → Step
  stay m buf = record { out = []; mode = m; buf = buf; skips = false }

  abbrev pub skip : Mode → Bytes → Step
  skip m buf = record { out = []; mode = m; buf = buf; skips = true }

  abbrev pub flush_into : Mode → Bool → Bytes → Step
  flush_into m skips buf = record { out = flush buf; mode = m; buf = []; skips = skips }

  -- Between quotes `q`; two of them stand for one.
  abbrev pub in_quote : Mode → ℕ → ℕ → ℕ → Bytes → Step
  in_quote m q c next buf =
      if c == q then if next == q then skip m buf else stay plain buf else stay m buf

  unfoldable pub step : Mode → ℕ → ℕ → Bytes → Step
  step line_comment c next buf = stay (if c == b'\n' then plain else line_comment) buf
  step block_comment c next buf =
      if c == b'*' && next == b'/' then skip plain buf else stay block_comment buf
  step single_quote c next buf = in_quote single_quote b'\'' c next buf
  step double_quote c next buf = in_quote double_quote b'"' c next buf
  step plain c next buf =
      if c == b'-' && next == b'-'
      then flush_into line_comment true buf
      else if c == b'/' && next == b'*'
      then flush_into block_comment true buf
      else if c == b'\''
      then flush_into single_quote false buf
      else if c == b'"'
      then flush_into double_quote false buf
      else if is_word c
      then stay plain (buf ++ c ∷ [])
      else flush_into plain false buf

  -- `next`, which is 0 behind the end.
  abbrev pub peek : Bytes → ℕ
  peek [] = 0
  peek (c ∷ s) = c

  unfoldable pub lex : Bool → Mode → Bytes → Bytes → List Bytes
  unfolding step
  lex skips m buf [] = flush buf
  lex true m buf (c ∷ s) = lex false m buf s
  lex false m buf (c ∷ s) = let a = step m c (peek s) buf in a.out ++ lex a.skips a.mode a.buf s

  unfoldable pub sql_tokens : Bytes → List Bytes
  unfolding lex
  sql_tokens sql = lex false plain [] sql
