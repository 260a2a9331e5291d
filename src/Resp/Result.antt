-- ===== src/Resp/Result.antt =====
-- The outcome of the parser: `AppResult`, with a constructor for each message of `AppError::Resp`.
use evilresp.Base.{ℕ}
use evilresp.Base.Bytes.{Bytes}

pub data Error : Type 0 where
  frame_too_large : Error
  trailing_bytes : ℕ → Error
  too_deep : Error
  empty_input : Error
  null_with_data : Error
  invalid_boolean : Error
  negative_blob : Error
  negative_aggregate : Error
  negative_map : Error
  truncated_aggregate : Error
  truncated_blob : Error
  blob_missing_crlf : Error
  invalid_integer : Error
  invalid_utf8 : Error
  missing_terminator : Error
  invalid_length : Error

pub data Result {ℓ} (A : Type ℓ) : Type ℓ where
  ok : A → Result A
  err : Error → Result A

-- The bytes from `position` on; what is left of them is the new position.
abbrev pub Parser {ℓ} : Type ℓ → Type ℓ
Parser A = Bytes → Result (A × Bytes)

-- The `?` operator: an error is passed on.
module _ {ℓ κ} {A : Type ℓ} {B : Type κ} where
  abbrev pub bind : Result A → (A → Result B) → Result B
  bind (ok value) next = next value
  bind (err error) next = err error

abbrev pub pure {ℓ} : {A : Type ℓ} → A → Parser A
pure a rest = ok (a, rest)

abbrev pub fail {ℓ} : {A : Type ℓ} → Error → Parser A
fail e rest = err e

module _ {ℓ κ} {A : Type ℓ} {B : Type κ} where
  infixl 1 ◌>>=◌
  abbrev pub ◌>>=◌ : Parser A → (A → Parser B) → Parser B
  ◌>>=◌ p f bytes = bind (p bytes) λ r. f r.0 r.1
