-- ===== src/Generator/Drawn.antt =====
-- src/generator.rs: the draws of scalars, and `mutate_scalar`.
use evilresp.Base.Bytes.{Bytes, codes, cr, lf, equal}
use evilresp.Base.Decimal.{decimal}
use evilresp.Base.Int.{ℤ, pos}
use evilresp.Base.{
  ℕ, zero, suc, ◌-◌, ◌^◌, Bool, true, false, not, List, [], ◌∷◌, ◌++◌, Option, none, some, length,
  get_or, take, drop, if◌then◌else◌,
}
use evilresp.Generator.Config.{GeneratorConfig, Corpus, boundary, random}
use evilresp.Generator.Scalars.{
  i64_min, i64_max, sizes, integers, doubles, big_numbers, texts, max_blob_bytes, repeated,
  shout_same, different_number, make_different, wrapping_next, complement,
}
use evilresp.Random.{Random}
use evilresp.Resp.Same.{same_int, same_words}
use evilresp.Resp.Frame.{
  Frame, simple_string, simple_error, integer, bulk_string, boolean, double, big_number, bulk_error,
  verbatim_string, inline,
}

abbrev pub is_boundary : Corpus → Bool
is_boundary boundary = true
is_boundary random = false

module _ (r : Random) where
  open r use {
    Gen, gen_ratio, gen_flag, gen_i64, gen_below, gen_range, gen_range_inclusive, finite_text,
  }

  -- `pick`.
  abbrev pub pick {ℓ} : {A : Type ℓ} → A → List A → Gen → A × Gen
  pick d items g = let (i, g') = gen_range 0 (length items) g in (get_or items i d, g')

  -- `len` printable characters, and up to `max` of them.
  unfoldable pub printable : ℕ → Gen → Bytes × Gen
  printable zero g = ([], g)
  printable (suc len) g =
      let (c, g') = gen_range_inclusive 0x21 0x7e g in
      let (rest, g'') = printable len g' in (c ∷ rest, g'')

  unfoldable pub ascii : ℕ → Gen → Bytes × Gen
  unfolding printable
  ascii max g = let (len, g') = gen_range_inclusive 0 max g in printable len g'

  unfoldable pub random_bytes : ℕ → Gen → Bytes × Gen
  random_bytes zero g = ([], g)
  random_bytes (suc len) g =
      let (b, g') = gen_below 256 g in let (rest, g'') = random_bytes len g' in (b ∷ rest, g'')

  -- `overflow_text`.
  unfoldable pub overflow_text : Bytes → Gen → Bytes × Gen
  overflow_text current g =
      let (second, g') = gen_flag g in
      let value = if second then decimal (2 ^ 64 - 1) else decimal (2 ^ 63 - 1) in
      let other = if second then decimal (2 ^ 63 - 1) else decimal (2 ^ 64 - 1) in
      (if equal value current then other else value, g')

  module _ (c : GeneratorConfig) where
    -- `boundary` and `violate`: the draw is made only where its result can matter.
    unfoldable pub draws_boundary : Gen → Bool × Gen
    draws_boundary g = if is_boundary c.corpus then gen_ratio 7 10 g else (false, g)

    unfoldable pub violate : Gen → Bool × Gen
    violate g = if c.violations then gen_ratio 1 5 g else (false, g)

    unfoldable pub draw_integer : Gen → ℤ × Gen
    unfolding draws_boundary
    draw_integer g =
        let (at_boundary, g') = draws_boundary g in
        if at_boundary then pick (pos 0) integers g' else gen_i64 g'

    unfoldable pub draw_text : Gen → Bytes × Gen
    unfolding draws_boundary ascii
    draw_text g =
        let (at_boundary, g') = draws_boundary g in
        if at_boundary then pick [] texts g' else ascii 24 g'

    unfoldable pub pattern_blob : Gen → Bytes × Gen
    unfolding repeated
    pattern_blob g =
        let (len, g') = pick 0 sizes g in
        let (pattern, g'') =
          pick [] ((0 ∷ []) ∷ (255 ∷ []) ∷ (cr ∷ lf ∷ 0 ∷ b'$' ∷ b'*' ∷ []) ∷ codes "a" ∷ []) g' in
        (repeated pattern 0 len, g'')

    unfoldable pub boundary_blob : Gen → Bytes × Gen
    unfolding pattern_blob
    boundary_blob g =
        let (numeric, g') = gen_ratio 1 4 g in
        if numeric then pick [] big_numbers g' else pattern_blob g'

    unfoldable pub random_blob : Gen → Bytes × Gen
    unfolding random_bytes
    random_blob g = let (len, g') = gen_range_inclusive 0 256 g in random_bytes len g'

    unfoldable pub draw_blob : Gen → Bytes × Gen
    unfolding draws_boundary random_blob boundary_blob
    draw_blob g =
        let (at_boundary, g') = draws_boundary g in
        if not at_boundary then random_blob g' else boundary_blob g'

    abbrev pub or_zero : Option Bytes → Bytes
    or_zero none = codes "0"
    or_zero (some text) = text

    -- `f64::from_bits(rng.gen())` as text.
    unfoldable pub random_double : Gen → Bytes × Gen
    random_double g = let (bits, g') = gen_below (2 ^ 64) g in (or_zero (finite_text bits), g')

    -- `overflow || self.boundary(rng)`, which draws only where `overflow` does not decide.
    unfoldable pub extreme : Bool → Gen → Bool × Gen
    unfolding draws_boundary
    extreme overflow g = if overflow then (true, g) else draws_boundary g

    unfoldable pub valid_double : Bool → Gen → Bytes × Gen
    unfolding extreme random_double
    valid_double overflow g =
        let (at_boundary, g') = extreme overflow g in
        if at_boundary then pick [] doubles g' else random_double g'

    unfoldable pub draw_double : Bool → Gen → Bytes × Gen
    unfolding violate valid_double
    draw_double overflow g =
        let (bad, g') = violate g in
        if bad
        then pick [] (codes "not-a-number" ∷ codes "1e" ∷ codes "1.2.3" ∷ []) g'
        else valid_double overflow g'

    unfoldable pub random_big_number : Gen → Bytes × Gen
    random_big_number g =
        let (negative, g') = gen_flag g in
        let (n, g'') = gen_below (2 ^ 128) g' in
        ((if negative then codes "-" else []) ++ decimal n, g'')

    unfoldable pub valid_big_number : Bool → Gen → Bytes × Gen
    unfolding extreme random_big_number
    valid_big_number overflow g =
        let (at_boundary, g') = extreme overflow g in
        if at_boundary then pick [] big_numbers g' else random_big_number g'

    unfoldable pub draw_big_number : Bool → Gen → Bytes × Gen
    unfolding violate valid_big_number
    draw_big_number overflow g =
        let (bad, g') = violate g in
        if bad
        then pick [] ([] ∷ codes "12x" ∷ codes "--1" ∷ codes "1.5" ∷ []) g'
        else valid_big_number overflow g'

    unfoldable pub draw_bulk_error : Gen → Bytes × Gen
    unfolding draw_blob
    draw_bulk_error g =
        let (blob, g') = draw_blob g in (take max_blob_bytes (codes "ERR " ++ blob), g')

    unfoldable pub valid_verbatim : Gen → Bytes × Gen
    unfolding draw_blob
    valid_verbatim g =
        let (blob, g') = draw_blob g in (take max_blob_bytes (codes "txt:" ++ blob), g')

    unfoldable pub draw_verbatim : Gen → Bytes × Gen
    unfolding violate valid_verbatim
    draw_verbatim g =
        let (bad, g') = violate g in if bad then (codes "bad", g') else valid_verbatim g'

    unfoldable pub overflow_integer : Gen → ℤ × Gen
    overflow_integer g = let (high, g') = gen_flag g in (if high then i64_max else i64_min, g')

    -- `next` where it differs from the old value.
    unfoldable pub other_integer : Bool → ℤ → ℤ → ℤ
    unfolding wrapping_next
    other_integer overflow next value =
        if not (same_int next value)
        then next
        else if overflow
        then complement next
        else wrapping_next value

    unfoldable pub overflow_verbatim : Bytes → Gen → Bytes × Gen
    unfolding overflow_text
    overflow_verbatim bytes g =
        let (text, g') = overflow_text (drop 4 bytes) g in (codes "txt:" ++ text, g')

    unfoldable pub draw_inline : List Bytes → Gen → List Bytes × Gen
    unfolding ascii
    draw_inline parts g =
        let (first, g') = ascii 8 g in
        let (second, g'') = ascii 8 g' in
        let next = first ∷ second ∷ [] in
        (if same_words next parts then next ++ codes "x" ∷ [] else next, g'')

    -- `mutate_scalar`.
    unfoldable pub mutate_scalar : Frame → Bool → Gen → Frame × Gen
    unfolding overflow_integer draw_integer other_integer overflow_text draw_text shout_same
        draw_double draw_big_number different_number draw_blob make_different draw_bulk_error
        overflow_verbatim draw_verbatim draw_inline
    mutate_scalar (integer value) overflow g =
        let (next, g') = if overflow then overflow_integer g else draw_integer g in
        (integer (other_integer overflow next value), g')
    mutate_scalar (simple_string value) overflow g =
        let (next, g') = if overflow then overflow_text value g else draw_text g in
        (simple_string (shout_same next value), g')
    mutate_scalar (simple_error value) overflow g =
        let (next, g') = if overflow then overflow_text value g else draw_text g in
        (simple_error (shout_same next value), g')
    mutate_scalar (double value) overflow g =
        let (next, g') = draw_double overflow g in (double (different_number next value), g')
    mutate_scalar (big_number value) overflow g =
        let (next, g') = draw_big_number overflow g in
        (big_number (different_number next value), g')
    mutate_scalar (bulk_string (some bytes)) overflow g =
        let (next, g') = if overflow then overflow_text bytes g else draw_blob g in
        (bulk_string (some (make_different next bytes 0)), g')
    mutate_scalar (bulk_error bytes) overflow g =
        let (next, g') = if overflow then overflow_text bytes g else draw_bulk_error g in
        (bulk_error (make_different next bytes 0), g')
    mutate_scalar (verbatim_string bytes) overflow g =
        let (next, g') = if overflow then overflow_verbatim bytes g else draw_verbatim g in
        (verbatim_string (make_different next bytes 4), g')
    mutate_scalar (boolean value) overflow g = (boolean (not value), g)
    mutate_scalar (inline parts) overflow g =
        let (next, g') = draw_inline parts g in (inline next, g')
    mutate_scalar frame overflow g = (frame, g)
