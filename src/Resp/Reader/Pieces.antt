-- ===== src/Resp/Reader/Pieces.antt =====
-- The reader on the pieces that the encoder writes: header lines, counts and blob bodies.
use evilresp.Base.Bytes.{Bytes, crlf, lf}
use evilresp.Base.Decimal.{decimal, decimal_int, parse_i64, parse_i64-decimal_int}
use evilresp.Base.Int.{pos}
use evilresp.Base.Utf8.{is_utf8_ascii}
use evilresp.Base.{
  ℕ, zero, suc, ◌+◌, ◌-◌, ◌*◌, ◌^◌, ◌≤◌, ◌<◌, ◌≡◌, refl, arith, Bool, true, false, not, List, [],
  ◌∷◌, ◌++◌, some, append_assoc, length, length-append, take-append, drop-append, ltb, ◌==◌,
  if◌then◌else◌, all, &&-true, not-true,
}
use evilresp.Resp.Lines.{decimal_int-plain, plain-ascii, is_plain}
use evilresp.Resp.Parse.{max_frame_bytes, max_frame_depth, prefix_of}
use evilresp.Resp.Reader.{
  ok, Stream, read_until_lf, strip_crlf, stripped, read_line_raw, len_of, parse_len, ends_with_crlf,
  read_body, push_children, read_rest, read_header, read_one,
}

abbrev pub no_lf : Bytes → Bool
no_lf = all (λ c. not (c == lf))

read_until_lf-line :
    (limit : ℕ) (line rest : Bytes)
    → no_lf line ≡ true
    → length line + 2 ≤ limit
    → read_until_lf limit ((line ++ crlf) ++ rest) ≡ (line ++ crlf, rest)
unfolding read_until_lf
read_until_lf-line zero line rest h l = absurd (omega arith)
read_until_lf-line (suc zero) line rest h l = absurd (omega arith)
read_until_lf-line (suc (suc n)) [] rest h l = refl
read_until_lf-line (suc (suc n)) (c ∷ line) rest h l =
    let (hc, hline) = &&-true (not (c == lf)) (no_lf line) h in
    rw (not-true _ hc, read_until_lf-line (suc n) line rest hline (omega arith))

strip_crlf-line : (line : Bytes) → strip_crlf (line ++ crlf) ≡ some line
unfolding strip_crlf
strip_crlf-line [] = refl
strip_crlf-line (c ∷ []) = refl
strip_crlf-line (c ∷ d ∷ []) = refl
strip_crlf-line (c ∷ d ∷ e ∷ line) = rw (strip_crlf-line (d ∷ e ∷ line))

-- The stream behind `bytes`, once they are in the buffer.
abbrev pub after : Bytes → Bytes → Bytes → Stream
after raw bytes rest = record { raw = raw ++ bytes; input = rest }

stripped_line : (line : Bytes) (s : Stream) → stripped (line ++ crlf) s (some line) ≡ ok (line, s)
unfolding stripped
stripped_line [] s = refl
stripped_line (c ∷ line) s = refl

read_line_raw-line :
    (raw line rest : Bytes)
    → no_lf line ≡ true
    → length raw + length line + 2 ≤ max_frame_bytes
    → read_line_raw (record { raw = raw; input = (line ++ crlf) ++ rest })
      ≡ ok (line, after raw (line ++ crlf) rest)
unfolding read_line_raw
read_line_raw-line raw line rest h l =
    rw
      (
        read_until_lf-line (max_frame_bytes - length raw) line rest h (omega arith),
        strip_crlf-line line,
      )
      (stripped_line line _)

-- A header line in front of a stream: what is read of the frame depends on its prefix alone.
pub read_one-line :
    (c : ℕ) (pending : List ℕ) (raw line rest : Bytes)
    → no_lf line ≡ true
    → length pending ≤ max_frame_depth
    → length raw + length line + 3 ≤ max_frame_bytes
    → read_one pending (record { raw = raw; input = c ∷ ((line ++ crlf) ++ rest) })
      ≡ read_rest (prefix_of c) line pending (after raw (c ∷ (line ++ crlf)) rest)
unfolding read_one read_header
read_one-line c pending raw line rest h d l =
    let shallow : ltb max_frame_depth (length pending) ≡ false = ground arith in
    let room : (length raw == max_frame_bytes) ≡ false = ground arith in
    rw (
      shallow,
      room,
      read_line_raw-line (raw ++ c ∷ []) line rest h (omega (arith, length-append raw (c ∷ []))),
      append_assoc raw (c ∷ []) (line ++ crlf),
    )

pub plain-no_lf : (s : Bytes) → all is_plain s ≡ true → no_lf s ≡ true
plain-no_lf [] h = refl
plain-no_lf (c ∷ s) h =
    let (hc, hs) = &&-true (is_plain c) (all is_plain s) h in rw (plain-no_lf s hs) (ground arith)

decimal-plain : (n : ℕ) → all is_plain (decimal n) ≡ true
decimal-plain n = unfold decimal_int in decimal_int-plain (pos n)

pub decimal-no_lf : (n : ℕ) → no_lf (decimal n) ≡ true
decimal-no_lf n = plain-no_lf (decimal n) (decimal-plain n)

parse_i64-decimal : (n : ℕ) → n < 2 ^ 63 → parse_i64 (decimal n) ≡ some (pos n)
parse_i64-decimal n h = unfold decimal_int in parse_i64-decimal_int (pos n) h

pub parse_len-decimal :
    (n : ℕ) (nullable : Bool) → n < 2 ^ 63 → parse_len (decimal n) nullable ≡ ok (some n)
unfolding parse_len
parse_len-decimal n nullable h =
    rw (is_utf8_ascii (decimal n) (plain-ascii (decimal n) (decimal-plain n)))
      (rw (parse_i64-decimal n h) (unfold len_of in refl))

ends_with_crlf-append : (s : Bytes) → ends_with_crlf (s ++ crlf) ≡ true
unfolding ends_with_crlf
ends_with_crlf-append [] = refl
ends_with_crlf-append (c ∷ []) = refl
ends_with_crlf-append (c ∷ d ∷ []) = refl
ends_with_crlf-append (c ∷ d ∷ e ∷ s) = ends_with_crlf-append (d ∷ e ∷ s)

pub read_body-crlf :
    (raw b rest : Bytes)
    → length raw + length b + 2 ≤ max_frame_bytes
    → read_body (length b) (record { raw = raw; input = (b ++ crlf) ++ rest })
      ≡ ok (after raw (b ++ crlf) rest)
unfolding read_body
read_body-crlf raw b rest l =
    let size : length b + 2 ≡ length (b ++ crlf) = omega (arith, length-append b crlf) in
    let ends : ends_with_crlf (raw ++ (b ++ crlf)) ≡ true =
      rw (← append_assoc raw b crlf) (ends_with_crlf-append (raw ++ b)) in
    rw (size, take-append (b ++ crlf) rest, drop-append (b ++ crlf) rest, ends)
      (ground (arith, length-append b crlf))

pub push_children-fits :
    (factor n : ℕ) (pending : List ℕ) (s : Stream)
    → 3 * (n * factor) ≤ max_frame_bytes - length s.raw
    → push_children factor n pending s
      ≡ ok ((if ltb 0 (n * factor) then (n * factor) ∷ pending else pending), s)
unfolding push_children
push_children-fits factor n pending s h = ground arith
