-- ===== src/Generator/Different.antt =====
-- A scalar that is mutated never keeps its value.
use evilresp.Base.Bytes.{Bytes, codes, equal, equal_sound, equal_refl, equal_different}
use evilresp.Base.Int.{ℤ, pos, negsuc}
use evilresp.Base.{
  ℕ, zero, suc, ◌<◌, ◌≡◌, ◌≢◌, refl, sym, ◌∙◌, ap, arith, inl, inr, Bool, true, false, not, List,
  [], ◌∷◌, ◌++◌, none, some, length, length-append, leb, Bool-cases, &&-true,
}
use evilresp.Evil.{mutate}
use evilresp.Generator.Config.{GeneratorConfig}
use evilresp.Generator.Drawn.{mutate_scalar, other_integer, draw_inline, ascii}
use evilresp.Generator.Scalars.{
  shout_same, different_number, flip_bit, flip_at, make_different, wrapping_next, complement,
}
use evilresp.Mutation.{eligible_kind}
use evilresp.Random.{Random}
use evilresp.Resp.Frame.{
  Frame, simple_string, simple_error, integer, bulk_string, array, null_array, null, boolean,
  double, big_number, bulk_error, verbatim_string, map, set, push, attribute, inline,
}
use evilresp.Resp.Same.{same_int, same_words}

longer-ne : (a b : Bytes) → length b < length a → a ≢ b
longer-ne a b h e = omega (arith, ap length e)

shout_same-ne : (next value : Bytes) → shout_same next value ≢ value
unfolding shout_same
shout_same-ne next value = elim (Bool-cases (equal next value)) [
  | inl same ↦
      let kept = equal_sound next value same in
      rw (same, ← kept)
        (longer-ne (next ++ b'!' ∷ []) next (omega (arith, length-append next (b'!' ∷ []))))
  | inr other ↦ rw other (equal_different next value other)
]

different_number-ne : (next current : Bytes) → different_number next current ≢ current
unfolding different_number equal
different_number-ne next current = elim (Bool-cases (equal next current)) [
  | inr other ↦ rw other (equal_different next current other)
  | inl same ↦ elim (Bool-cases (equal current (codes "0"))) [
    | inl zero_text ↦
        rw (same, zero_text, equal_sound current (codes "0") zero_text)
          (equal_different (codes "1") (codes "0") refl)
    | inr other ↦ rw (same, other) (λ e. equal_different current (codes "0") other (sym e))
  ]
]

flip_bit-ne : (b : ℕ) → flip_bit b ≢ b
flip_bit-ne b = ground arith

flip_at-ne : (i : ℕ) (bs : Bytes) → i < length bs → flip_at i bs ≢ bs
flip_at-ne i [] h = absurd (omega arith)
flip_at-ne zero (b ∷ bs) h = λ e. flip_bit-ne b (cc)
flip_at-ne (suc i) (b ∷ bs) h = λ e. flip_at-ne i bs (omega arith) (cc)

make_different-ne :
    (next current : Bytes) (prefix : ℕ) → make_different next current prefix ≢ current
unfolding make_different
make_different-ne next current prefix = elim (Bool-cases (equal next current)) [
  | inr other ↦ rw other (equal_different next current other)
  | inl same ↦
      let kept = equal_sound next current same in
      elim (Bool-cases (leb (length next) prefix)) [
        | inl short ↦
            rw (same, short, ← kept)
              (longer-ne (next ++ b'x' ∷ []) next (omega (arith, length-append next (b'x' ∷ []))))
        | inr long ↦ rw (same, long, ← kept) (flip_at-ne prefix next (ground (arith, long)))
      ]
]

wrapping_next-ne : (z : ℤ) → wrapping_next z ≢ z
unfolding wrapping_next
wrapping_next-ne (pos n) = ground arith
wrapping_next-ne (negsuc zero) = ground arith
wrapping_next-ne (negsuc (suc n)) = ground arith

pub same_int_sound : (a b : ℤ) → same_int a b ≡ true → a ≡ b
unfolding same_int
same_int_sound (pos m) (pos n) h = ground arith
same_int_sound (pos m) (negsuc n) h = cc
same_int_sound (negsuc m) (pos n) h = cc
same_int_sound (negsuc m) (negsuc n) h = ground arith

pub same_int_refl : (a : ℤ) → same_int a a ≡ true
unfolding same_int
same_int_refl (pos n) = ground arith
same_int_refl (negsuc n) = ground arith

complement-ne : (z : ℤ) → complement z ≢ z
complement-ne (pos n) = λ e. cc
complement-ne (negsuc n) = λ e. cc

other_integer-ne :
    (r : Random) (c : GeneratorConfig) (overflow : Bool) (next value : ℤ)
    → other_integer r c overflow next value ≢ value
unfolding other_integer
other_integer-ne r c overflow next value = elim (Bool-cases (same_int next value)) [
  | inr other ↦ rw other (λ e. cc (same_int_refl value, rw e at other))
  | inl same ↦
      let kept = same_int_sound next value same in
      elim (Bool-cases overflow) [
        | inl at_limit ↦ rw (same, at_limit, ← kept) (complement-ne next)
        | inr plain ↦ rw (same, plain) (wrapping_next-ne value)
      ]
]

pub same_words_refl : (a : List Bytes) → same_words a a ≡ true
unfolding same_words
same_words_refl [] = refl
same_words_refl (x ∷ xs) = rw (equal_refl x) (same_words_refl xs)

same_words_sound : (a b : List Bytes) → same_words a b ≡ true → a ≡ b
unfolding same_words
same_words_sound [] [] h = refl
same_words_sound [] (y ∷ ys) h = cc
same_words_sound (x ∷ xs) [] h = cc
same_words_sound (x ∷ xs) (y ∷ ys) h =
    let (first, rest) = &&-true (equal x y) (same_words xs ys) h in
    ap (λ w. w ∷ xs) (equal_sound x y first) ∙ ap (◌∷◌ y) (same_words_sound xs ys rest)

abbrev int_of : Frame → ℤ
int_of (integer z) = z
int_of _ = pos 0

-- The text or the bytes of a scalar.
abbrev text_of : Frame → Bytes
text_of (simple_string value) = value
text_of (simple_error value) = value
text_of (double value) = value
text_of (big_number value) = value
text_of (bulk_string (some bytes)) = bytes
text_of (bulk_error bytes) = bytes
text_of (verbatim_string bytes) = bytes
text_of _ = []

abbrev parts_of : Frame → List Bytes
parts_of (inline parts) = parts
parts_of _ = []

abbrev flag_of : Frame → Bool
flag_of (boolean b) = b
flag_of _ = false

not-ne : (b : Bool) → not b ≢ b
not-ne true = λ e. cc
not-ne false = λ e. cc

module _ (r : Random) (c : GeneratorConfig) where
  draw_inline-ne : (parts : List Bytes) (g : r.Gen) → (draw_inline r c parts g).0 ≢ parts
  unfolding draw_inline
  draw_inline-ne parts g =
      let first = ascii r 8 g in
      let second = ascii r 8 first.1 in
      let next = first.0 ∷ second.0 ∷ [] in
      elim (Bool-cases (same_words next parts)) [
        | inr other ↦ rw other (λ e. cc (same_words_refl parts, rw e at other))
        | inl same ↦
            rw same (λ e. omega (arith, ap length (same_words_sound next parts same), ap length e))
      ]

  -- Whatever is drawn, a scalar that can be mutated does not keep its value.
  pub mutate_scalar-ne :
      (frame : Frame) (overflow : Bool) (g : r.Gen)
      → eligible_kind mutate frame ≡ true
      → (mutate_scalar r c frame overflow g).0 ≢ frame
  unfolding mutate_scalar eligible_kind
  mutate_scalar-ne (integer value) overflow g h =
      λ e. other_integer-ne r c overflow _ value (ap int_of e)
  mutate_scalar-ne (simple_string value) overflow g h = λ e. shout_same-ne _ value (ap text_of e)
  mutate_scalar-ne (simple_error value) overflow g h = λ e. shout_same-ne _ value (ap text_of e)
  mutate_scalar-ne (double value) overflow g h = λ e. different_number-ne _ value (ap text_of e)
  mutate_scalar-ne (big_number value) overflow g h = λ e. different_number-ne _ value (ap text_of e)
  mutate_scalar-ne (bulk_string (some bytes)) overflow g h =
      λ e. make_different-ne _ bytes 0 (ap text_of e)
  mutate_scalar-ne (bulk_error bytes) overflow g h = λ e. make_different-ne _ bytes 0 (ap text_of e)
  mutate_scalar-ne (verbatim_string bytes) overflow g h =
      λ e. make_different-ne _ bytes 4 (ap text_of e)
  mutate_scalar-ne (boolean value) overflow g h = λ e. not-ne value (ap flag_of e)
  mutate_scalar-ne (inline parts) overflow g h = λ e. draw_inline-ne parts g (ap parts_of e)
  mutate_scalar-ne (bulk_string none) overflow g h = cc
  mutate_scalar-ne (array items) overflow g h = cc
  mutate_scalar-ne null_array overflow g h = cc
  mutate_scalar-ne null overflow g h = cc
  mutate_scalar-ne (map items) overflow g h = cc
  mutate_scalar-ne (set items) overflow g h = cc
  mutate_scalar-ne (push items) overflow g h = cc
  mutate_scalar-ne (attribute items) overflow g h = cc
