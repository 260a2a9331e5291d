-- ===== src/Framing/Differs.antt =====
-- The text that replaces a declared length declares another one.
use evilresp.Base.Bytes.{Bytes, codes, equal, equal_different}
use evilresp.Base.Decimal.{
  decimal, decimal_int, parse_unsigned, parse_unsigned-decimal, AreDigits, last, more,
  decimal-AreDigits,
}
use evilresp.Base.Int.{ℤ, pos, negsuc}
use evilresp.Base.{
  ℕ, zero, suc, ◌+◌, ◌-◌, ◌%◌, ◌^◌, ◌≤◌, ◌<◌, ◌≡◌, ◌≢◌, refl, sym, ◌∙◌, ap, arith, inl, inr, false,
  List, [], ◌∷◌, Option, none, some, length, get_or, drop, Bool-cases,
}
use evilresp.Evil.{LengthCorruption, shorter, longer, negative, boundary, overflow}
use evilresp.Framing.Corrupt.{
  next_int, last_int, negatives, boundaries, overflows, different_at, choose_different,
  corrupt_length,
}
use evilresp.Generator.Different.{same_int_sound, same_int_refl}
use evilresp.Random.{Random}
use evilresp.Resp.Same.{same_int}

-- What a frame in memory can declare: -1, or a length below 2^63 - 1.
abbrev pub IsLength : ℤ → Type 0
IsLength (pos n) = n < 2 ^ 63 - 1
IsLength (negsuc n) = n ≡ 0

abbrev pub some_value : Option ℕ → ℕ
some_value none = 0
some_value (some n) = n

decimal_injective : (m n : ℕ) → decimal m ≡ decimal n → m ≡ n
decimal_injective m n e =
    let limit = suc (m + n) in
    let a = parse_unsigned-decimal limit m (omega arith) in
    let b = parse_unsigned-decimal limit n (omega arith) in
    ap some_value (sym a ∙ ap (parse_unsigned limit) e ∙ b)

-- No number starts with a minus.
minus-ne : (s t : Bytes) → AreDigits s → s ≢ b'-' ∷ t
minus-ne s t (last d) e = omega (arith, d.0, ap (λ x. get_or x 0 0) e)
minus-ne s t (more d ds) e = omega (arith, d.0, ap (λ x. get_or x 0 0) e)

decimal_int_injective : (a b : ℤ) → decimal_int a ≡ decimal_int b → a ≡ b
unfolding decimal_int
decimal_int_injective (pos m) (pos n) e = ap pos (decimal_injective m n e)
decimal_int_injective (pos m) (negsuc n) e = absurd (minus-ne _ _ (decimal-AreDigits m) e)
decimal_int_injective (negsuc m) (pos n) e = absurd (minus-ne _ _ (decimal-AreDigits n) (sym e))
decimal_int_injective (negsuc m) (negsuc n) e =
    let same = decimal_injective (suc m) (suc n) (ap (drop 1) e) in ap negsuc (omega (arith, same))

pub decimal_int-ne : (a b : ℤ) → a ≢ b → decimal_int a ≢ decimal_int b
decimal_int-ne a b h e = h (decimal_int_injective a b e)

different_int : (a b : ℤ) → same_int a b ≡ false → a ≢ b
different_int a b h e = cc (same_int_refl b, rw e at h)

pub next_int-ne : (z : ℤ) → next_int z ≢ z
next_int-ne (pos n) = ground arith
next_int-ne (negsuc zero) = ground arith
next_int-ne (negsuc (suc n)) = ground arith

last_int-ne : (z : ℤ) → last_int z ≢ z
last_int-ne (pos zero) = ground arith
last_int-ne (pos (suc n)) = ground arith
last_int-ne (negsuc n) = ground arith

-- Neighbours in the lists of values differ, around the end too.
negatives-different :
    (i : ℕ)
    → i < 3
    → same_int (get_or negatives ((i + 1) % 3) (pos 0)) (get_or negatives i (pos 0)) ≡ false
unfolding same_int
negatives-different zero h = refl
negatives-different (suc zero) h = refl
negatives-different (suc (suc zero)) h = refl
negatives-different (suc (suc (suc i))) h = absurd (omega arith)

boundaries-different :
    (i : ℕ)
    → i < 8
    → same_int (get_or boundaries ((i + 1) % 8) (pos 0)) (get_or boundaries i (pos 0)) ≡ false
unfolding same_int
boundaries-different zero h = refl
boundaries-different (suc zero) h = refl
boundaries-different (suc (suc zero)) h = refl
boundaries-different (suc (suc (suc zero))) h = refl
boundaries-different (suc (suc (suc (suc zero)))) h = refl
boundaries-different (suc (suc (suc (suc (suc zero))))) h = refl
boundaries-different (suc (suc (suc (suc (suc (suc zero)))))) h = refl
boundaries-different (suc (suc (suc (suc (suc (suc (suc zero))))))) h = refl
boundaries-different (suc (suc (suc (suc (suc (suc (suc (suc i)))))))) h = absurd (omega arith)

different_at-ne :
    (z : ℤ) (values : List ℤ) (i : ℕ)
    → same_int (get_or values ((i + 1) % length values) (pos 0)) (get_or values i (pos 0)) ≡ false
    → different_at z values i ≢ z
unfolding different_at
different_at-ne z values i h = elim (Bool-cases (same_int (get_or values i (pos 0)) z)) [
  | inl same ↦
      let here = same_int_sound (get_or values i (pos 0)) z same in
      rw same (rw here at (different_int _ _ h))
  | inr other ↦ rw other (different_int _ _ other)
]

-- The text of a number that is no length.
number-ne :
    (text : Bytes) (n : ℕ) (z : ℤ)
    → parse_unsigned (2 ^ 130) text ≡ some n
    → 2 ^ 63 ≤ n
    → IsLength z
    → text ≢ decimal_int z
unfolding decimal_int parse_unsigned
number-ne text n (pos m) e big h t =
    let read = parse_unsigned-decimal (2 ^ 130) m (omega (arith, h)) in
    omega (arith, h, big, ap some_value (sym e ∙ ap (parse_unsigned (2 ^ 130)) t ∙ read))
number-ne text n (negsuc zero) e big h t =
    let none_read : parse_unsigned (2 ^ 130) (codes "-1") ≡ none = refl in
    cc (sym e ∙ ap (parse_unsigned (2 ^ 130)) t ∙ none_read)
number-ne text n (negsuc (suc m)) e big h t = omega (arith, h)

-- The texts beyond 64 bits are none of a length.
overflows-ne : (z : ℤ) (i : ℕ) → i < 4 → IsLength z → get_or overflows i [] ≢ decimal_int z
unfolding parse_unsigned decimal decimal_int equal
overflows-ne z zero l h = number-ne (codes "9223372036854775808") (2 ^ 63) z refl (omega arith) h
overflows-ne z (suc zero) l h =
    number-ne (codes "18446744073709551616") (2 ^ 64) z refl (omega arith) h
overflows-ne (pos n) (suc (suc zero)) l h =
    λ e. minus-ne (decimal n) _ (decimal-AreDigits n) (sym e)
overflows-ne (negsuc zero) (suc (suc zero)) l h =
    equal_different (codes "-9223372036854775809") (codes "-1") refl
overflows-ne (negsuc (suc n)) (suc (suc zero)) l h = omega (arith, h)
overflows-ne z (suc (suc (suc zero))) l h =
    number-ne (codes "340282366920938463463374607431768211456") (2 ^ 128) z refl (omega arith) h
overflows-ne z (suc (suc (suc (suc i)))) l h = absurd (omega arith)

module _ (r : Random) where
  choose_different-ne :
      (z : ℤ) (values : List ℤ) (g : r.Gen)
      → ((i : ℕ)
          → i < length values
          → same_int (get_or values ((i + 1) % length values) (pos 0)) (get_or values i (pos 0))
            ≡ false)
      → 0 < length values
      → (choose_different r z values g).0 ≢ decimal_int z
  unfolding choose_different
  choose_different-ne z values g distinct h =
      let i = (r.gen_range 0 (length values) g).0 in
      decimal_int-ne (different_at z values i) z
        (different_at-ne z values i (distinct i (r.gen_range_bounds 0 (length values) g h).1))

  -- Whatever its kind and whatever is drawn, a corruption replaces a length by a text that is not its own.
  pub corrupt_length-ne :
      (z : ℤ) (kind : LengthCorruption) (g : r.Gen)
      → IsLength z
      → (corrupt_length r z kind g).0 ≢ decimal_int z
  unfolding corrupt_length
  corrupt_length-ne z shorter g h = decimal_int-ne (last_int z) z (last_int-ne z)
  corrupt_length-ne z longer g h = decimal_int-ne (next_int z) z (next_int-ne z)
  corrupt_length-ne z negative g h =
      choose_different-ne z negatives g negatives-different (omega arith)
  corrupt_length-ne z boundary g h =
      choose_different-ne z boundaries g boundaries-different (omega arith)
  corrupt_length-ne z overflow g h = overflows-ne z _ (r.gen_range_bounds 0 4 g (omega arith)).1 h
