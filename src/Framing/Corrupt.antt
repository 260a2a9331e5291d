-- ===== src/Framing/Corrupt.antt =====
-- src/framing.rs: `corrupt_length` and `choose_different`.
use evilresp.Base.Bytes.{Bytes, codes}
use evilresp.Base.Decimal.{decimal_int}
use evilresp.Base.Int.{ℤ, pos, negsuc}
use evilresp.Base.{ℕ, zero, suc, ◌+◌, ◌-◌, ◌%◌, ◌^◌, List, [], ◌∷◌, length, get_or, if◌then◌else◌}
use evilresp.Evil.{LengthCorruption, shorter, longer, negative, boundary, overflow}
use evilresp.Random.{Random}
use evilresp.Resp.Same.{same_int}

-- One more and one less, in `i128`.
abbrev pub next_int : ℤ → ℤ
next_int (pos n) = pos (n + 1)
next_int (negsuc zero) = pos 0
next_int (negsuc (suc n)) = negsuc n

abbrev pub last_int : ℤ → ℤ
last_int (pos zero) = negsuc 0
last_int (pos (suc n)) = pos n
last_int (negsuc n) = negsuc (suc n)

abbrev pub negatives : List ℤ
negatives = negsuc 1 ∷ negsuc 2 ∷ negsuc (2 ^ 63 - 1) ∷ []

abbrev pub boundaries : List ℤ
boundaries =
    pos 0
    ∷ pos 1
    ∷ pos (2 ^ 31 - 1)
    ∷ pos (2 ^ 31)
    ∷ pos (2 ^ 32 - 1)
    ∷ pos (2 ^ 32)
    ∷ pos (2 ^ 63 - 1)
    ∷ pos (2 ^ 64 - 1)
    ∷ []

abbrev pub overflows : List Bytes
overflows =
    codes "9223372036854775808"
    ∷ codes "18446744073709551616"
    ∷ codes "-9223372036854775809"
    ∷ codes "340282366920938463463374607431768211456"
    ∷ []

-- The value at an index, or the next one where the old value stands there.
unfoldable pub different_at : ℤ → List ℤ → ℕ → ℤ
different_at original values i =
    if same_int (get_or values i (pos 0)) original
    then get_or values ((i + 1) % length values) (pos 0)
    else get_or values i (pos 0)

module _ (r : Random) where
  open r use {Gen, gen_range}

  unfoldable pub choose_different : ℤ → List ℤ → Gen → Bytes × Gen
  unfolding different_at
  choose_different original values g =
      let (i, g') = gen_range 0 (length values) g in
      (decimal_int (different_at original values i), g')

  -- `corrupt_length`.
  unfoldable pub corrupt_length : ℤ → LengthCorruption → Gen → Bytes × Gen
  unfolding choose_different
  corrupt_length original shorter g = (decimal_int (last_int original), g)
  corrupt_length original longer g = (decimal_int (next_int original), g)
  corrupt_length original negative g = choose_different original negatives g
  corrupt_length original boundary g = choose_different original boundaries g
  corrupt_length original overflow g =
      let (i, g') = gen_range 0 (length overflows) g in (get_or overflows i [], g')
