-- ===== src/Etl/Lexer/Words.antt =====
-- internal/etl/executor.go: `sqlTokens` gives the words outside quotes and comments, and no others.
use go_task_q.Etl.{Text, IsText}
use go_task_q.Etl.Lexer.{in_quote, Mode, step}
use go_task_q.Base.{List, ◌≡◌, ℕ, Bytes}

module _ (t : Text) (l : IsText t) where
  -- Behind an opening quote, up to the closing one, nothing becomes a token.
  IsQuoteMode : Mode → ℕ → Type 0
  IsQuoteMode m q = (c n : ℕ) (buf : Bytes) → step t m c n buf ≡ in_quote t m q c n buf
