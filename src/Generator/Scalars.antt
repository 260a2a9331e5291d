-- ===== src/Generator/Scalars.antt =====
-- src/generator.rs: the scalars that are generated, and `mutate_scalar`.
use evilresp.Base.Bytes.{Bytes, codes, equal}
use evilresp.Base.Int.{ℤ, pos, negsuc}
use evilresp.Base.{
  ℕ, zero, suc, ◌+◌, ◌-◌, ◌%◌, ◌^◌, Bool, true, false, not, List, [], ◌∷◌, ◌++◌, length, get_or,
  ltb, leb, ◌==◌, if◌then◌else◌,
}
use evilresp.Generator.Config.{Corpus, boundary, random}

-- A written i64: the minimum and the maximum.
abbrev pub i64_min : ℤ
i64_min = negsuc (2 ^ 63 - 1)

abbrev pub i64_max : ℤ
i64_max = pos (2 ^ 63 - 1)

abbrev pub sizes : List ℕ
sizes = 0 ∷ 1 ∷ 31 ∷ 32 ∷ 33 ∷ 255 ∷ 256 ∷ 257 ∷ 4095 ∷ 4096 ∷ 4097 ∷ []

abbrev pub integers : List ℤ
integers =
    i64_min
    ∷ negsuc (2 ^ 63 - 2)
    ∷ negsuc 2147483648
    ∷ negsuc 2147483647
    ∷ negsuc 2147483646
    ∷ negsuc 0
    ∷ pos 0
    ∷ pos 1
    ∷ pos 2147483646
    ∷ pos 2147483647
    ∷ pos 2147483648
    ∷ pos 4294967295
    ∷ pos 4294967296
    ∷ pos (2 ^ 63 - 2)
    ∷ i64_max
    ∷ []

abbrev pub doubles : List Bytes
doubles =
    codes "0"
    ∷ codes "-0"
    ∷ codes "1"
    ∷ codes "-1"
    ∷ codes "4.9406564584124654e-324"
    ∷ codes "2.2250738585072014e-308"
    ∷ codes "1.7976931348623157e308"
    ∷ codes "-1.7976931348623157e308"
    ∷ codes "inf"
    ∷ codes "-inf"
    ∷ codes "nan"
    ∷ []

abbrev pub big_numbers : List Bytes
big_numbers =
    codes "0"
    ∷ codes "-1"
    ∷ codes "9223372036854775807"
    ∷ codes "9223372036854775808"
    ∷ codes "-9223372036854775809"
    ∷ codes "18446744073709551615"
    ∷ codes "18446744073709551616"
    ∷ codes "340282366920938463463374607431768211455"
    ∷ codes "-340282366920938463463374607431768211455"
    ∷ []

abbrev pub texts : List Bytes
texts =
    []
    ∷ codes "0"
    ∷ codes "-1"
    ∷ codes "2147483648"
    ∷ codes "9223372036854775807"
    ∷ codes "18446744073709551616"
    ∷ []

abbrev pub max_blob_bytes : ℕ
max_blob_bytes = 4097

abbrev is_boundary : Corpus → Bool
is_boundary boundary = true
is_boundary random = false

-- `(0..len).map(|i| pattern[i % pattern.len()])`, from `i` on.
unfoldable pub repeated : Bytes → ℕ → ℕ → Bytes
repeated pattern i zero = []
repeated pattern i (suc len) = get_or pattern (i % length pattern) 0 ∷ repeated pattern (suc i) len

-- `next.push('!')` on a value that did not change.
unfoldable pub shout_same : Bytes → Bytes → Bytes
shout_same next value = if equal next value then next ++ b'!' ∷ [] else next

unfoldable pub different_number : Bytes → Bytes → Bytes
different_number next current =
    if not (equal next current)
    then next
    else if equal current (codes "0")
    then codes "1"
    else codes "0"

abbrev pub flip_bit : ℕ → ℕ
flip_bit b = if b % 2 == 0 then b + 1 else b - 1

abbrev pub flip_at : ℕ → Bytes → Bytes
flip_at i [] = []
flip_at zero (b ∷ bs) = flip_bit b ∷ bs
flip_at (suc i) (b ∷ bs) = b ∷ flip_at i bs

-- `make_different`; `^ 1` on a byte flips its lowest bit.
unfoldable pub make_different : Bytes → Bytes → ℕ → Bytes
make_different next current prefix =
    if not (equal next current)
    then next
    else if leb (length next) prefix
    then next ++ b'x' ∷ []
    else flip_at prefix next

-- `wrapping_add(1)` and `!` of an i64.
unfoldable pub wrapping_next : ℤ → ℤ
wrapping_next (pos n) = if ltb (n + 1) (2 ^ 63) then pos (n + 1) else i64_min
wrapping_next (negsuc zero) = pos 0
wrapping_next (negsuc (suc n)) = negsuc n

abbrev pub complement : ℤ → ℤ
complement (pos n) = negsuc n
complement (negsuc n) = pos n
