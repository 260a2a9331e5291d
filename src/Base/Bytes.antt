-- ===== src/Base/Bytes.antt =====
-- Byte strings: what `Vec<u8>`, `&[u8]` and (as UTF-8) `String` hold, and the ASCII functions of
-- the standard library that the source calls on them.
use evilresp.Base.Tests.{leb, ◌==◌, if◌then◌else◌, Bool-cases}
use Prim.Native.Char.{code}
use Prim.Native.Nat.{ℕ, ◌+◌, ◌-◌}
use Prim.Native.String.{String}
use mathlib.Core.Bool.{Bool, true, false, ◌&&◌, ◌||◌}
use mathlib.Core.Logic.{◌≢◌, inl, inr}
use mathlib.Core.Path.{◌≡◌, refl}
use native.Mathlib.Omega.{arith}
use mathlib.Core.List.{List, [], ◌∷◌, ◌++◌, map}

abbrev pub Bytes : Type 0
Bytes = List ℕ

-- The bytes of an ASCII literal.
abbrev pub codes : String → Bytes
codes String.[] = []
codes (String.◌∷◌ c s) = code c ∷ codes s

abbrev pub cr : ℕ
cr = 13

abbrev pub lf : ℕ
lf = 10

abbrev pub crlf : Bytes
crlf = cr ∷ lf ∷ []

-- `u8::is_ascii_digit`, `u8::is_ascii_whitespace`, `u8::to_ascii_uppercase`.
abbrev pub is_ascii_digit : ℕ → Bool
is_ascii_digit c = leb b'0' c && leb c b'9'

abbrev pub is_ascii_whitespace : ℕ → Bool
is_ascii_whitespace c = c == b' ' || c == 9 || c == lf || c == 12 || c == cr

unfoldable pub ascii_upper : ℕ → ℕ
ascii_upper c = if leb b'a' c && leb c b'z' then c - 32 else c

unfoldable pub to_ascii_uppercase : Bytes → Bytes
unfolding ascii_upper
to_ascii_uppercase = map ascii_upper

unfoldable pub equal : Bytes → Bytes → Bool
equal [] [] = true
equal (x ∷ xs) (y ∷ ys) = x == y && equal xs ys
equal _ _ = false

-- `str::eq_ignore_ascii_case`.
unfoldable pub eq_ignore_ascii_case : Bytes → Bytes → Bool
unfolding equal to_ascii_uppercase
eq_ignore_ascii_case a b = equal (to_ascii_uppercase a) (to_ascii_uppercase b)

unfoldable pub ascii_lower : ℕ → ℕ
ascii_lower b = if leb b'A' b && leb b b'Z' then b + 32 else b

unfoldable pub to_ascii_lowercase : Bytes → Bytes
unfolding ascii_lower
to_ascii_lowercase [] = []
to_ascii_lowercase (b ∷ bs) = ascii_lower b ∷ to_ascii_lowercase bs

-- `split(separator)`: there is always a part, and `part` is the one being read.
unfoldable pub split_on : ℕ → Bytes → Bytes → List Bytes
split_on separator part [] = part ∷ []
split_on separator part (c ∷ cs) =
    let next = part ∷ split_on separator [] cs in
    let more = split_on separator (part ++ c ∷ []) cs in if c == separator then next else more

pub equal_sound : (a b : Bytes) → equal a b ≡ true → a ≡ b
unfolding equal
equal_sound [] [] h = refl
equal_sound [] (y ∷ ys) h = cc
equal_sound (x ∷ xs) [] h = cc
equal_sound (x ∷ xs) (y ∷ ys) h = ground (arith, equal_sound xs ys)

pub equal_refl : (a : Bytes) → equal a a ≡ true
unfolding equal
equal_refl [] = refl
equal_refl (x ∷ xs) = ground (arith, equal_refl xs)

-- Texts that the test tells apart are different.
pub equal_different : (a b : Bytes) → equal a b ≡ false → a ≢ b
equal_different a b h e = cc (equal_refl b, rw e at h)

pub equal-false : (a b : Bytes) → a ≢ b → equal a b ≡ false
equal-false a b h = elim (Bool-cases (equal a b)) [
  | inl same ↦ absurd (h (equal_sound a b same))
  | inr other ↦ other
]
