-- ===== src/Etl.antt =====
-- internal/etl/executor.go: the pipeline that copies rows inside Postgres by a generated INSERT.
-- Strings are their bytes. What Go's `strings` and `unicode` know beyond ASCII is a parameter.
pub mod Lexer
pub mod Extract
pub mod Insert
pub mod Handler
use mathlib.Core.List.{Memᴰ}
use go_task_q.Base.{ap, refl, ◌||◌, ◌&&◌, leb, List, ◌≡◌, Bytes, ◌<◌, Bool, ℕ}

-- `runes` are the code points that `range` reads from a string.
pub record Text : Type 0 where
  pub trim_space : Bytes → Bytes
  pub to_lower : Bytes → Bytes
  pub runes : Bytes → List ℕ
  pub is_letter : ℕ → Bool
  pub is_digit : ℕ → Bool

abbrev pub ascii_letter : ℕ → Bool
ascii_letter c = (leb b'a' c && leb c b'z') || (leb b'A' c && leb c b'Z')

abbrev pub ascii_digit : ℕ → Bool
ascii_digit c = leb b'0' c && leb c b'9'

-- What Go documents of the ASCII range.
pub record IsText (t : Text) : Type 0 where
  pub letter_ascii : (c : ℕ) → c < 128 → t.is_letter c ≡ ascii_letter c
  pub digit_ascii : (c : ℕ) → c < 128 → t.is_digit c ≡ ascii_digit c
  pub runes_ascii : (c : ℕ) (s : Bytes) → c < 128 → Memᴰ c s → Memᴰ c (t.runes s)

-- What the checks of a pipeline refuse, one for each error text.
pub data SpecError : Type 0 where
  payload_required not_json sql_required table_required columns_required : SpecError
  bad_write_mode conflict_columns_required update_columns_required : SpecError
  bad_identifier too_many_parts qualified_column : SpecError
  not_a_query empty_sql : SpecError
  forbidden_token : Bytes → SpecError

pub data Checked {ℓ} (A : Type ℓ) : Type ℓ where
  valid : A → Checked A
  invalid : SpecError → Checked A

module _ {ℓ} {A B : Type ℓ} where
  infixl 5 ◌>>=◌
  abbrev pub ◌>>=◌ : Checked A → (A → Checked B) → Checked B
  valid a >>= f = f a
  invalid e >>= f = invalid e

  pub bind-valid :
      (m : Checked A) (f : A → Checked B) {b : B}
      → m >>= f ≡ valid b
      → (a : A) × (m ≡ valid a) × (f a ≡ valid b)
  bind-valid (valid a) f h = (a, refl, h)
  bind-valid (invalid e) f h = cc

pub eq_of_valid {ℓ} : {A : Type ℓ} {a b : A} → valid a ≡ valid b → a ≡ b
eq_of_valid {A = A} {a} h =
    ap (λ (m : Checked A). elim m as (λ x. A) [ valid x ↦ x | invalid e ↦ a ]) h

pub not_valid {ℓ} : {A : Type ℓ} {a : A} {e : SpecError} → invalid e ≡ valid a → ⊥
not_valid h = cc
