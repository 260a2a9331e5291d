-- ===== src/Resp/RoundTrip.antt =====
-- `parse_frame` reads back what `encode` writes.
use evilresp.Base.Bytes.{Bytes, codes, crlf}
use evilresp.Base.Decimal.{decimal}
use evilresp.Base.Int.{pos}
use evilresp.Base.{
  ℕ, zero, suc, ◌+◌, ◌*◌, ◌/◌, ◌^◌, ◌≤◌, ◌<◌, ◌≡◌, refl, ap, ◌∙◌, arith, Bool, true, false, ◌&&◌,
  not, List, [], ◌∷◌, ◌++◌, append_assoc, append-nil, length, length-append, ltb, all, &&-true,
  not-true, some, none, if◌then◌else◌,
}
use evilresp.Resp.Canonical.{
  is_line, is_i64→IsI64, is_other, is_command, is_word, canonical, canonical_items, canonical_pairs,
  count-le-wire, count_pairs-le-wire,
}
use evilresp.Resp.Encode.{encode, spaced}
use evilresp.Resp.Frame.{
  Frame, Frames, Pairs, simple_string, simple_error, integer, bulk_string, array, null_array, null,
  boolean, double, big_number, bulk_error, verbatim_string, map, set, push, attribute, inline, nil,
  cons, end, pair, count, count_pairs,
}
use evilresp.Resp.Lines.{
  has_crlf, take_line-crlf, take_utf8_line-crlf, take_i64_line-crlf, take_i64_line-decimal,
  take_i64_line_none, take_blob-crlf,
}
use evilresp.Resp.Parse.{
  Prefix, other, prefix_of, star, tilde, greater, percent, bar, dollar, bang, equals, take_line,
  parse_inline, parse_kind, parse_frame_inner, parse_levels, finish, parse_frame, read_frames,
  read_pairs, read_sequence, map_like, max_frame_bytes, max_frame_depth,
}
use evilresp.Resp.Result.{ok, err, trailing_bytes, Parser}
use evilresp.Resp.Wire.{wire, wire_items, wire_pairs, depth, depth_items, depth_pairs, encode-wire}
use evilresp.Resp.Words.{shell_words-join_parts, join_parts-has_crlf}

is_line-parts :
    (s : Bytes) → is_line s ≡ true → (evilresp.Base.Utf8.is_utf8 s ≡ true) × (has_crlf s ≡ false)
is_line-parts s h = let (u, n) = &&-true _ (not (has_crlf s)) h in (u, not-true _ n)

read_sequence-fits :
    (frame : Parser Frame) (n : ℕ) (bytes : Bytes)
    → 3 * n ≤ length bytes
    → read_sequence frame (pos n) bytes ≡ read_frames frame n bytes
unfolding read_sequence
read_sequence-fits frame n bytes h = ground arith

map_like-fits :
    (frame : Parser Frame) (n : ℕ) (bytes : Bytes)
    → 6 * n ≤ length bytes
    → map_like frame (pos n) bytes ≡ read_pairs frame n bytes
unfolding map_like
map_like-fits frame n bytes h = ground arith

-- A header line, and the bytes that it announces.
header_line :
    (n : ℕ) (body rest : Bytes)
    → n < 2 ^ 63
    → evilresp.Resp.Parse.take_i64_line (((decimal n ++ crlf) ++ body) ++ rest)
      ≡ ok (pos n, body ++ rest)
header_line n body rest small = rw append_assoc (take_i64_line-decimal n (body ++ rest) small)

one-le-depth : (f : Frame) → 1 ≤ depth f
unfolding depth
one-le-depth null = omega arith
one-le-depth _ = omega arith

parse_inline-command :
    (c : ℕ) (cs : Bytes) (ps : List Bytes) (rest : Bytes)
    → all is_word ((c ∷ cs) ∷ ps) ≡ true
    → parse_inline c (((cs ++ spaced ps) ++ crlf) ++ rest) ≡ ok (inline ((c ∷ cs) ∷ ps), rest)
unfolding parse_inline
parse_inline-command c cs ps rest h =
    rw (take_line-crlf (c ∷ (cs ++ spaced ps)) rest (join_parts-has_crlf ((c ∷ cs) ∷ ps) h))
      (rw (shell_words-join_parts c cs ps h))

pub is_other→eq : (k : Prefix) → is_other k ≡ true → k ≡ other
is_other→eq k h = ground arith

parse_kind_inline :
    (frame : Parser Frame) (c : ℕ) (cs : Bytes) (ps : List Bytes) (rest : Bytes)
    → is_command ((c ∷ cs) ∷ ps) ≡ true
    → parse_kind frame c (prefix_of c) (((cs ++ spaced ps) ++ crlf) ++ rest)
      ≡ ok (inline ((c ∷ cs) ∷ ps), rest)
unfolding parse_kind
parse_kind_inline frame c cs ps rest h =
    let (k, w) = &&-true (is_other (prefix_of c)) (all is_word ((c ∷ cs) ∷ ps)) h in
    rw (is_other→eq (prefix_of c) k) (parse_inline-command c cs ps rest w)

abbrev IsSmall : Bytes → Type 0
IsSmall bytes = length bytes < 2 ^ 63

IsSmall-blob :
    (c : ℕ) (b : Bytes)
    → IsSmall (c ∷ ((decimal (length b) ++ crlf) ++ (b ++ crlf)))
    → length b < 2 ^ 63
IsSmall-blob c b h =
    omega (arith, length-append (decimal (length b) ++ crlf) (b ++ crlf), length-append b crlf)

IsSmall-body : (c : ℕ) (head body : Bytes) → IsSmall (c ∷ ((head ++ crlf) ++ body)) → IsSmall body
IsSmall-body c head body h = omega (arith, length-append (head ++ crlf) body)

IsSmall-left : (a b : Bytes) → IsSmall (a ++ b) → IsSmall a
IsSmall-left a b h = omega (arith, length-append a b)

IsSmall-right : (a b : Bytes) → IsSmall (a ++ b) → IsSmall b
IsSmall-right a b h = omega (arith, length-append a b)

read_sequence-items :
    (frame : Parser Frame) (fs : Frames) (rest : Bytes)
    → canonical_items fs ≡ true
    → read_frames frame (count fs) (wire_items fs ++ rest) ≡ ok (fs, rest)
    → read_sequence frame (pos (count fs)) (wire_items fs ++ rest) ≡ ok (fs, rest)
read_sequence-items frame fs rest h reads =
    read_sequence-fits frame (count fs) (wire_items fs ++ rest)
      (omega (arith, count-le-wire fs h, length-append (wire_items fs) rest))
    ∙ reads

map_like-pairs :
    (frame : Parser Frame) (ps : Pairs) (rest : Bytes)
    → canonical_pairs ps ≡ true
    → read_pairs frame (count_pairs ps) (wire_pairs ps ++ rest) ≡ ok (ps, rest)
    → map_like frame (pos (count_pairs ps)) (wire_pairs ps ++ rest) ≡ ok (ps, rest)
map_like-pairs frame ps rest h reads =
    map_like-fits frame (count_pairs ps) (wire_pairs ps ++ rest)
      (omega (arith, count_pairs-le-wire ps h, length-append (wire_pairs ps) rest))
    ∙ reads

IsSmall-items :
    (fs : Frames) → canonical_items fs ≡ true → IsSmall (wire_items fs) → count fs < 2 ^ 63
IsSmall-items fs h s = omega (arith, count-le-wire fs h)

IsSmall-pairs :
    (ps : Pairs) → canonical_pairs ps ≡ true → IsSmall (wire_pairs ps) → count_pairs ps < 2 ^ 63
IsSmall-pairs ps h s = omega (arith, count_pairs-le-wire ps h)

mutual
  unfolding parse_levels wire depth canonical read_frames read_pairs parse_kind has_crlf

  parse_levels-wire :
      (f : Frame) (d : ℕ) (rest : Bytes)
      → depth f ≤ d
      → canonical f ≡ true
      → IsSmall (wire f)
      → parse_levels d (wire f ++ rest) ≡ ok (f, rest)
  parse_levels-wire f zero rest l h s = absurd (omega (arith, one-le-depth f))
  parse_levels-wire (simple_string v) (suc d) rest l h s =
      let (u, n) = is_line-parts v h in rw (take_utf8_line-crlf v rest u n)
  parse_levels-wire (simple_error v) (suc d) rest l h s =
      let (u, n) = is_line-parts v h in rw (take_utf8_line-crlf v rest u n)
  parse_levels-wire (double v) (suc d) rest l h s =
      let (u, n) = is_line-parts v h in rw (take_utf8_line-crlf v rest u n)
  parse_levels-wire (big_number v) (suc d) rest l h s =
      let (u, n) = is_line-parts v h in rw (take_utf8_line-crlf v rest u n)
  parse_levels-wire (integer z) (suc d) rest l h s =
      rw (take_i64_line-crlf z rest (is_i64→IsI64 z h))
  parse_levels-wire (bulk_string none) (suc d) rest l h s = rw (take_i64_line_none rest)
  parse_levels-wire (bulk_string (some b)) (suc d) rest l h s =
      rw (header_line (length b) (b ++ crlf) rest (IsSmall-blob b'$' b s))
        (rw (take_blob-crlf b rest))
  parse_levels-wire (bulk_error b) (suc d) rest l h s =
      rw (header_line (length b) (b ++ crlf) rest (IsSmall-blob b'!' b s))
        (rw (take_blob-crlf b rest))
  parse_levels-wire (verbatim_string b) (suc d) rest l h s =
      rw (header_line (length b) (b ++ crlf) rest (IsSmall-blob b'=' b s))
        (rw (take_blob-crlf b rest))
  parse_levels-wire null_array (suc d) rest l h s = rw (take_i64_line_none rest)
  parse_levels-wire null (suc d) rest l h s = rw (take_line-crlf [] rest refl)
  parse_levels-wire (boolean true) (suc d) rest l h s = rw (take_line-crlf (codes "t") rest refl)
  parse_levels-wire (boolean false) (suc d) rest l h s = rw (take_line-crlf (codes "f") rest refl)
  parse_levels-wire (array fs) (suc d) rest l h s =
      let small = IsSmall-body b'*' (decimal (count fs)) (wire_items fs) s in
      rw (header_line (count fs) (wire_items fs) rest (IsSmall-items fs h small)) (
        rw (
          read_sequence-items (parse_levels d) fs rest h
            (read_frames-wire fs d rest (omega arith) h small)))
  parse_levels-wire (set fs) (suc d) rest l h s =
      let small = IsSmall-body b'~' (decimal (count fs)) (wire_items fs) s in
      rw (header_line (count fs) (wire_items fs) rest (IsSmall-items fs h small)) (
        rw (
          read_sequence-items (parse_levels d) fs rest h
            (read_frames-wire fs d rest (omega arith) h small)))
  parse_levels-wire (push fs) (suc d) rest l h s =
      let small = IsSmall-body b'>' (decimal (count fs)) (wire_items fs) s in
      rw (header_line (count fs) (wire_items fs) rest (IsSmall-items fs h small)) (
        rw (
          read_sequence-items (parse_levels d) fs rest h
            (read_frames-wire fs d rest (omega arith) h small)))
  parse_levels-wire (map ps) (suc d) rest l h s =
      let small = IsSmall-body b'%' (decimal (count_pairs ps)) (wire_pairs ps) s in
      rw (header_line (count_pairs ps) (wire_pairs ps) rest (IsSmall-pairs ps h small)) (
        rw (
          map_like-pairs (parse_levels d) ps rest h
            (read_pairs-wire ps d rest (omega arith) h small)))
  parse_levels-wire (attribute ps) (suc d) rest l h s =
      let small = IsSmall-body b'|' (decimal (count_pairs ps)) (wire_pairs ps) s in
      rw (header_line (count_pairs ps) (wire_pairs ps) rest (IsSmall-pairs ps h small)) (
        rw (
          map_like-pairs (parse_levels d) ps rest h
            (read_pairs-wire ps d rest (omega arith) h small)))
  parse_levels-wire (inline []) (suc d) rest l h s = cc
  parse_levels-wire (inline ([] ∷ ps)) (suc d) rest l h s = cc
  parse_levels-wire (inline ((c ∷ cs) ∷ ps)) (suc d) rest l h s =
      parse_kind_inline (parse_levels d) c cs ps rest h

  read_frames-wire :
      (fs : Frames) (d : ℕ) (rest : Bytes)
      → depth_items fs ≤ d
      → canonical_items fs ≡ true
      → IsSmall (wire_items fs)
      → read_frames (parse_levels d) (count fs) (wire_items fs ++ rest) ≡ ok (fs, rest)
  read_frames-wire nil d rest l h s = refl
  read_frames-wire (cons f fs) d rest l h s =
      let (hf, hfs) = &&-true (canonical f) (canonical_items fs) h in
      rw (append_assoc (wire f) (wire_items fs) rest) (
        rw
          (parse_levels-wire f d (wire_items fs ++ rest) (omega arith) hf
            (IsSmall-left (wire f) (wire_items fs) s))
          (rw (
            read_frames-wire fs d rest (omega arith) hfs
              (IsSmall-right (wire f) (wire_items fs) s))))

  read_pairs-wire :
      (ps : Pairs) (d : ℕ) (rest : Bytes)
      → depth_pairs ps ≤ d
      → canonical_pairs ps ≡ true
      → IsSmall (wire_pairs ps)
      → read_pairs (parse_levels d) (count_pairs ps) (wire_pairs ps ++ rest) ≡ ok (ps, rest)
  read_pairs-wire end d rest l h s = refl
  read_pairs-wire (pair k v ps) d rest l h s =
      let (hkv, hps) = &&-true (canonical k && canonical v) (canonical_pairs ps) h in
      let (hk, hv) = &&-true (canonical k) (canonical v) hkv in
      let tail = IsSmall-right (wire k) (wire v ++ wire_pairs ps) s in
      rw (append_assoc (wire k) (wire v ++ wire_pairs ps) rest) (
        rw
          (parse_levels-wire k d ((wire v ++ wire_pairs ps) ++ rest) (omega arith) hk
            (IsSmall-left (wire k) (wire v ++ wire_pairs ps) s))
          (rw (append_assoc (wire v) (wire_pairs ps) rest) (
            rw
              (parse_levels-wire v d (wire_pairs ps ++ rest) (omega arith) hv
                (IsSmall-left (wire v) (wire_pairs ps) tail))
              (rw (
                read_pairs-wire ps d rest (omega arith) hps
                  (IsSmall-right (wire v) (wire_pairs ps) tail))))))

parse_frame-finish :
    (bytes : Bytes) {f : Frame} {rest : Bytes}
    → length bytes ≤ max_frame_bytes
    → parse_levels max_frame_depth bytes ≡ ok (f, rest)
    → parse_frame bytes ≡ finish (length bytes) (f, rest)
unfolding parse_frame
parse_frame-finish bytes s e = rw e (ground arith)

-- A canonical frame of at most 128 levels whose encoding has at most 64 MiB is parsed back from
-- that encoding.
pub parse_frame-encode :
    (f : Frame)
    → canonical f ≡ true
    → depth f ≤ max_frame_depth
    → length (encode f) ≤ max_frame_bytes
    → parse_frame (encode f) ≡ ok f
parse_frame-encode f h l s =
    let read = parse_levels-wire f max_frame_depth [] l h (rw (← encode-wire f) (omega arith)) in
    let whole = rw (append-nil, ← encode-wire f) at read in
    parse_frame-finish (encode f) s whole ∙ unfold finish in refl

-- With bytes behind its encoding the same frame is refused, with the offset at which it ends.
pub parse_frame_trailing :
    (f : Frame) (c : ℕ) (rest : Bytes)
    → canonical f ≡ true
    → depth f ≤ max_frame_depth
    → length (encode f ++ c ∷ rest) ≤ max_frame_bytes
    → parse_frame (encode f ++ c ∷ rest) ≡ err (trailing_bytes (length (encode f)))
parse_frame_trailing f c rest h l s =
    let fits = length-append (encode f) (c ∷ rest) in
    let small : IsSmall (wire f) = rw (← encode-wire f) (omega (arith, fits)) in
    let read = parse_levels-wire f max_frame_depth (c ∷ rest) l h small in
    parse_frame-finish (encode f ++ c ∷ rest) s (rw (← encode-wire f) at read)
    ∙ unfold finish in ap (λ n. err (trailing_bytes n)) (omega (arith, fits))
