-- ===== src/Base/Decimal.antt =====
-- The standard library's decimal text of integers: `to_string` and `str::parse`.
use evilresp.Base.Bytes.{Bytes, is_ascii_digit}
use evilresp.Base.Int.{ℤ, pos, negsuc, IsI64, sub_ℕ}
use evilresp.Base.Tests.{ltb, ◌==◌, if◌then◌else◌, Bool-cases}
use Prim.Native.Nat.{ℕ, zero, suc, ◌+◌, ◌-◌, ◌*◌, ◌/◌, ◌%◌, ◌^◌, ◌≤◌, ◌<◌}
use mathlib.Core.Bool.{true}
use mathlib.Core.List.{[], ◌∷◌, ◌++◌, append_assoc, append-nil}
use mathlib.Core.Logic.{inl, inr}
use evilresp.Base.Options.{bind, map}
use mathlib.Core.Option.{Option, none, some}
use mathlib.Core.Path.{◌≡◌, refl, ◌∙◌}
use native.Mathlib.Omega.{arith}

-- The digits of `n`, highest first; each call has a smaller number, so `n` units of fuel suffice.
digits : ℕ → ℕ → Bytes
digits zero n = (b'0' + n) ∷ []
digits (suc f) n =
    let rest = digits f (n / 10) ++ ((b'0' + n % 10) ∷ []) in
    if ltb n 10 then (b'0' + n) ∷ [] else rest

-- `usize::to_string` and `u64::to_string`.
unfoldable pub decimal : ℕ → Bytes
unfolding digits
decimal n = digits n n

-- `i64::to_string` and `i128::to_string`.
unfoldable pub decimal_int : ℤ → Bytes
unfolding decimal
decimal_int (pos n) = decimal n
decimal_int (negsuc n) = b'-' ∷ decimal (suc n)

-- The digits of a `parse` call, all of them; the value is unbounded here and is checked behind it.
read_digits : ℕ → Bytes → Option ℕ
read_digits acc [] = some acc
read_digits acc (c ∷ cs) =
    let more = read_digits (acc * 10 + (c - b'0')) cs in if is_ascii_digit c then more else none

-- At least one digit.
read_decimal : Bytes → Option ℕ
read_decimal [] = none
read_decimal (c ∷ cs) = read_digits 0 (c ∷ cs)

below : ℕ → ℕ → Option ℕ
below limit n = if ltb n limit then some n else none

-- `str::parse` of an unsigned type whose values lie below `limit`: a `+` may stand in front.
unfoldable pub parse_unsigned : ℕ → Bytes → Option ℕ
unfolding read_digits read_decimal below
parse_unsigned limit [] = none
parse_unsigned limit (c ∷ cs) =
    bind (if c == b'+' then read_decimal cs else read_decimal (c ∷ cs)) (below limit)

negate : ℕ → ℤ
negate n = sub_ℕ 0 n

-- `str::parse::<i64>`: an optional sign, then at least one digit, and the value in range.
unfoldable pub parse_i64 : Bytes → Option ℤ
unfolding read_digits read_decimal below negate
parse_i64 [] = none
parse_i64 (c ∷ cs) =
    if c == b'-'
    then map negate (bind (read_decimal cs) (below (2 ^ 63 + 1)))
    else if c == b'+'
    then map pos (bind (read_decimal cs) (below (2 ^ 63)))
    else map pos (bind (read_decimal (c ∷ cs)) (below (2 ^ 63)))

minus_forty_two : parse_i64 (decimal_int (negsuc 41)) ≡ some (negsuc 41)
unfolding parse_i64 decimal_int
minus_forty_two = refl

abbrev IsDigit : ℕ → Type 0
IsDigit c = (b'0' ≤ c) × (c ≤ b'9')

-- Text made of digits, at least one.
pub data AreDigits : Bytes → Type 0 where
  last : {c : ℕ} → IsDigit c → AreDigits (c ∷ [])
  more : {c : ℕ} {cs : Bytes} → IsDigit c → AreDigits cs → AreDigits (c ∷ cs)

AreDigits-concat : {cs : Bytes} (c : ℕ) → AreDigits cs → IsDigit c → AreDigits (cs ++ c ∷ [])
AreDigits-concat c (last h) d = more h (last d)
AreDigits-concat c (more h t) d = more h (AreDigits-concat c t d)

digits-AreDigits : (f n : ℕ) → n ≤ f → AreDigits (digits f n)
unfolding digits
digits-AreDigits zero n h = last (omega arith)
digits-AreDigits (suc f) n h = elim (Bool-cases (ltb n 10)) [
  | inl small ↦ rw small (last (ground arith))
  | inr large ↦
      rw large (
        AreDigits-concat (b'0' + n % 10) (digits-AreDigits f (n / 10) (ground arith)) (omega arith))
]

pub decimal-AreDigits : (n : ℕ) → AreDigits (decimal n)
unfolding decimal
decimal-AreDigits n = digits-AreDigits n n (omega arith)

is_ascii_digit-low : (n : ℕ) → is_ascii_digit (b'0' + n % 10) ≡ true
is_ascii_digit-low n = ground arith

low_digit : (n : ℕ) → n / 10 * 10 + (b'0' + n % 10 - b'0') ≡ n
low_digit n = omega arith

read_digits-digits :
    (f n : ℕ) (rest : Bytes) → n ≤ f → read_digits 0 (digits f n ++ rest) ≡ read_digits n rest
unfolding digits read_digits
read_digits-digits zero n rest h = ground arith
read_digits-digits (suc f) n rest h = elim (Bool-cases (ltb n 10)) [
  | inl small ↦ rw small (ground arith)
  | inr large ↦
      rw (large, append_assoc)
        (read_digits-digits f (n / 10) ((b'0' + n % 10) ∷ rest) (ground arith)
          ∙ rw (is_ascii_digit-low n, low_digit n))
]

read_decimal-AreDigits : {s : Bytes} → AreDigits s → read_decimal s ≡ read_digits 0 s
unfolding read_decimal
read_decimal-AreDigits (last h) = refl
read_decimal-AreDigits (more h t) = refl

read_decimal-decimal : (n : ℕ) → read_decimal (decimal n) ≡ some n
unfolding decimal
read_decimal-decimal n =
    read_decimal-AreDigits (digits-AreDigits n n (omega arith))
    ∙ rw (← append-nil (digits n n))
        (read_digits-digits n n [] (omega arith) ∙ unfold read_digits in refl)

-- A digit is no sign, so the text of a number is read as it stands.
parse_i64-AreDigits :
    {s : Bytes} (n : ℕ)
    → AreDigits s
    → read_decimal s ≡ some n
    → n < 2 ^ 63
    → parse_i64 s ≡ some (pos n)
unfolding parse_i64
parse_i64-AreDigits n (last h) e b = ground arith
parse_i64-AreDigits n (more h t) e b = ground arith

-- Every `i64` is read back from its text.
pub parse_i64-decimal_int : (z : ℤ) → IsI64 z → parse_i64 (decimal_int z) ≡ some z
unfolding decimal_int
parse_i64-decimal_int (pos n) h =
    parse_i64-AreDigits n (decimal-AreDigits n) (read_decimal-decimal n) h
parse_i64-decimal_int (negsuc n) h =
    unfold parse_i64 in rw (read_decimal-decimal (suc n)) (ground arith)

parse_unsigned-AreDigits :
    {s : Bytes} (limit n : ℕ)
    → AreDigits s
    → read_decimal s ≡ some n
    → n < limit
    → parse_unsigned limit s ≡ some n
unfolding parse_unsigned
parse_unsigned-AreDigits limit n (last d) e h = ground arith
parse_unsigned-AreDigits limit n (more d t) e h = ground arith

-- Every number in range is read back from its text.
pub parse_unsigned-decimal : (limit n : ℕ) → n < limit → parse_unsigned limit (decimal n) ≡ some n
parse_unsigned-decimal limit n h =
    parse_unsigned-AreDigits limit n (decimal-AreDigits n) (read_decimal-decimal n) h
