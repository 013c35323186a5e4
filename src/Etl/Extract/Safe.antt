-- ===== src/Etl/Extract/Safe.antt =====
-- internal/etl/executor.go: what an accepted extract statement cannot say.
use go_task_q.Base.{codes, ◌++◌, ◌≢◌, ◌⊎◌, [], ◌∷◌, All, ◌≡◌, Bytes}

-- The word is none of these.
abbrev pub IsHarmless : Bytes → Type 0
IsHarmless w =
    All (λ x. w ≢ codes x)
      ("insert" ∷ "update" ∷ "delete" ∷ "merge" ∷ "create" ∷ "alter" ∷ "drop" ∷ "truncate" ∷ "copy"
        ∷ "grant" ∷ "revoke" ∷ "call" ∷ "do" ∷ "vacuum" ∷ "analyze" ∷ [])

-- A text with its last semicolon, if it ends in one, and without.
abbrev pub IsBody : Bytes → Bytes → Type 0
IsBody text body = (text ≡ body) ⊎ (text ≡ body ++ b';' ∷ [])
