-- ===== src/Etl/Lexer/Pieces.antt =====
-- internal/etl/executor.go: the tokens of a statement that is put together from its parts.
use go_task_q.Etl.{Text}
use go_task_q.Etl.Lexer.{is_word}
use go_task_q.Base.{
  ◌||◌, ◌&&◌, [], if◌then◌else◌, ◌≢◌, any, ◌++◌, ◌==◌, false, Bool, ◌∷◌, true, List, ◌≡◌, All, ℕ,
  Bytes,
}

-- What stands between two words: a byte that begins nothing, a minus or a slash before a space, a
-- quoted text or name before a space, and the two kinds of comment.
pub data Gap : Type 0 where
  symbol : ℕ → Gap
  minus slash : Gap
  quoted named remark block : Bytes → Gap

-- A quote inside quotes is written twice.
abbrev pub doubled : ℕ → Bytes → Bytes
doubled q [] = []
doubled q (c ∷ s) = if c == q then c ∷ c ∷ doubled q s else c ∷ doubled q s

-- The way a gap is written, before the rest of the statement.
abbrev pub written : Gap → Bytes → Bytes
written (symbol c) rest = c ∷ rest
written minus rest = b'-' ∷ b' ' ∷ rest
written slash rest = b'/' ∷ b' ' ∷ rest
written (quoted s) rest = b'\'' ∷ (doubled b'\'' s ++ b'\'' ∷ b' ' ∷ rest)
written (named s) rest = b'"' ∷ (doubled b'"' s ++ b'"' ∷ b' ' ∷ rest)
written (remark s) rest = b'-' ∷ b'-' ∷ (s ++ b'\n' ∷ rest)
written (block s) rest = b'/' ∷ b'*' ∷ (s ++ b'*' ∷ b'/' ∷ rest)

-- The text of a block comment does not end it.
abbrev pub closes : Bytes → Bool
closes (c ∷ d ∷ s) = (c == b'*' && d == b'/') || closes (d ∷ s)
closes _ = false

abbrev pub has_newline : Bytes → Bool
has_newline s = any (λ c. c == b'\n') s

-- A statement: words, each with the gap behind it, and a last word. A word may be empty.
pub record Statement : Type 0 where
  pub parts : List (Bytes × Gap)
  pub last : Bytes

abbrev pub render_parts : List (Bytes × Gap) → Bytes → Bytes
render_parts [] last = last
render_parts ((w, g) ∷ ps) last = w ++ written g (render_parts ps last)

abbrev pub render : Statement → Bytes
render s = render_parts s.parts s.last

module _ (t : Text) where
  abbrev pub IsWord : Bytes → Type 0
  IsWord w = All (λ c. is_word t c ≡ true) w

  abbrev pub IsGap : Gap → Type 0
  IsGap (symbol c) = (is_word t c ≡ false) × (c ≢ b'-') × (c ≢ b'/') × (c ≢ b'\'') × (c ≢ b'"')
  IsGap (remark s) = has_newline s ≡ false
  IsGap (block s) = closes s ≡ false
  IsGap _ = Unit

  abbrev pub IsStatement : Statement → Type 0
  IsStatement s = All (λ (p : Bytes × Gap). IsWord p.0 × IsGap p.1) s.parts × IsWord s.last

  -- The token of a word; an empty one has none.
  abbrev pub word_tokens : Bytes → List Bytes
  word_tokens [] = []
  word_tokens (c ∷ w) = t.to_lower (c ∷ w) ∷ []

  -- The words, in lower case.
  abbrev pub words_of : List (Bytes × Gap) → Bytes → List Bytes
  words_of [] last = word_tokens last
  words_of ((w, g) ∷ ps) last = word_tokens w ++ words_of ps last

  abbrev pub words : Statement → List Bytes
  words s = words_of s.parts s.last
