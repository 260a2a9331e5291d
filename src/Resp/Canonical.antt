-- ===== src/Resp/Canonical.antt =====
-- The frames that the encoder writes in a form that the parser reads back.
use evilresp.Base.Decimal.{decimal, decimal_int}
use evilresp.Base.Bytes.{Bytes, crlf, is_ascii_whitespace}
use evilresp.Base.Int.{ℤ, pos, negsuc, IsI64}
use evilresp.Base.Utf8.{is_utf8}
use evilresp.Base.{
  ◌*◌, ◌^◌, ◌≤◌, ◌≡◌, arith, Bool, true, false, ◌&&◌, not, List, [], ◌∷◌, ◌++◌, some, none, &&-true,
  length, length-append, ltb, all,
}
use evilresp.Resp.Frame.{
  Frame, Frames, Pairs, simple_string, simple_error, integer, bulk_string, array, null_array, null,
  boolean, double, big_number, bulk_error, verbatim_string, map, set, push, attribute, inline, nil,
  cons, end, pair, count, count_pairs,
}
use evilresp.Resp.Encode.{spaced}
use evilresp.Resp.Lines.{has_crlf}
use evilresp.Resp.Parse.{Prefix, other, prefix_of}
use evilresp.Resp.Wire.{wire, wire_items, wire_pairs}

-- A `String` without CR LF.
abbrev pub is_line : Bytes → Bool
is_line s = is_utf8 s && not (has_crlf s)

abbrev pub is_i64 : ℤ → Bool
is_i64 (pos n) = ltb n (2 ^ 63)
is_i64 (negsuc n) = ltb n (2 ^ 63)

abbrev pub is_other : Prefix → Bool
is_other other = true
is_other _ = false

abbrev pub no_space : Bytes → Bool
no_space = all (λ c. not (is_ascii_whitespace c))

-- A part of an inline command.
abbrev pub is_word : Bytes → Bool
is_word [] = false
is_word (c ∷ cs) = no_space (c ∷ cs)

-- At least one part, and the first byte announces no other frame.
abbrev pub is_command : List Bytes → Bool
is_command [] = false
is_command ([] ∷ ps) = false
is_command ((c ∷ cs) ∷ ps) = is_other (prefix_of c) && all is_word ((c ∷ cs) ∷ ps)

unfoldable mutual
  pub canonical : Frame → Bool
  canonical (simple_string s) = is_line s
  canonical (simple_error s) = is_line s
  canonical (integer z) = is_i64 z
  canonical (double s) = is_line s
  canonical (big_number s) = is_line s
  canonical (array items) = canonical_items items
  canonical (map items) = canonical_pairs items
  canonical (set items) = canonical_items items
  canonical (push items) = canonical_items items
  canonical (attribute items) = canonical_pairs items
  canonical (inline parts) = is_command parts
  canonical _ = true

  pub canonical_items : Frames → Bool
  canonical_items nil = true
  canonical_items (cons f fs) = canonical f && canonical_items fs

  pub canonical_pairs : Pairs → Bool
  canonical_pairs end = true
  canonical_pairs (pair k v ps) = canonical k && canonical v && canonical_pairs ps

pub is_i64→IsI64 : (z : ℤ) → is_i64 z ≡ true → IsI64 z
is_i64→IsI64 (pos n) h = ground arith
is_i64→IsI64 (negsuc n) h = ground arith

two-le-line : (s : Bytes) → 2 ≤ length (s ++ crlf)
two-le-line s = omega (arith, length-append s crlf)

two-le-line_append : (s rest : Bytes) → 2 ≤ length ((s ++ crlf) ++ rest)
two-le-line_append s rest = omega (arith, length-append (s ++ crlf) rest, two-le-line s)

three-le-wire_inline :
    (parts : List Bytes) → is_command parts ≡ true → 3 ≤ length (wire (inline parts))
unfolding wire
three-le-wire_inline [] h = cc
three-le-wire_inline ([] ∷ ps) h = cc
three-le-wire_inline ((c ∷ cs) ∷ ps) h = omega (arith, two-le-line (cs ++ spaced ps))

-- Even the shortest frame needs a prefix and CR LF.
pub three-le-wire : (f : Frame) → canonical f ≡ true → 3 ≤ length (wire f)
unfolding canonical wire
three-le-wire (simple_string s) h = omega (arith, two-le-line s)
three-le-wire (simple_error s) h = omega (arith, two-le-line s)
three-le-wire (double s) h = omega (arith, two-le-line s)
three-le-wire (big_number s) h = omega (arith, two-le-line s)
three-le-wire (integer z) h = omega (arith, two-le-line (decimal_int z))
three-le-wire (bulk_string none) h = omega arith
three-le-wire (bulk_string (some b)) h =
    omega (arith, two-le-line_append (decimal (length b)) (b ++ crlf))
three-le-wire (bulk_error b) h = omega (arith, two-le-line_append (decimal (length b)) (b ++ crlf))
three-le-wire (verbatim_string b) h =
    omega (arith, two-le-line_append (decimal (length b)) (b ++ crlf))
three-le-wire (array fs) h = omega (arith, two-le-line_append (decimal (count fs)) (wire_items fs))
three-le-wire (set fs) h = omega (arith, two-le-line_append (decimal (count fs)) (wire_items fs))
three-le-wire (push fs) h = omega (arith, two-le-line_append (decimal (count fs)) (wire_items fs))
three-le-wire (map ps) h =
    omega (arith, two-le-line_append (decimal (count_pairs ps)) (wire_pairs ps))
three-le-wire (attribute ps) h =
    omega (arith, two-le-line_append (decimal (count_pairs ps)) (wire_pairs ps))
three-le-wire (boolean true) h = omega arith
three-le-wire (boolean false) h = omega arith
three-le-wire null_array h = omega arith
three-le-wire null h = omega arith
three-le-wire (inline parts) h = three-le-wire_inline parts h

pub count-le-wire :
    (fs : Frames) → canonical_items fs ≡ true → 3 * count fs ≤ length (wire_items fs)
unfolding canonical wire
count-le-wire nil h = omega arith
count-le-wire (cons f fs) h =
    let (hf, hfs) = &&-true (canonical f) (canonical_items fs) h in
    omega (arith, length-append (wire f) (wire_items fs), three-le-wire f hf, count-le-wire fs hfs)

pub count_pairs-le-wire :
    (ps : Pairs) → canonical_pairs ps ≡ true → 6 * count_pairs ps ≤ length (wire_pairs ps)
unfolding canonical wire
count_pairs-le-wire end h = omega arith
count_pairs-le-wire (pair k v ps) h =
    let (hkv, hps) = &&-true (canonical k && canonical v) (canonical_pairs ps) h in
    let (hk, hv) = &&-true (canonical k) (canonical v) hkv in
    omega (
      arith,
      length-append (wire k) (wire v ++ wire_pairs ps),
      length-append (wire v) (wire_pairs ps),
      three-le-wire k hk,
      three-le-wire v hv,
      count_pairs-le-wire ps hps,
    )
