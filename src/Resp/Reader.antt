-- ===== src/Resp/Reader.antt =====
-- src/resp.rs: `read_raw_frame`, which takes the bytes of one frame off a stream. The stream is the
-- list of bytes that it will give before it ends; no other I/O error is modelled.
pub mod Conserves
mod Pieces
pub mod Rounds
mod Levels
mod Encoded
pub mod Agrees
use evilresp.Base.Bytes.{Bytes, cr, lf}
use evilresp.Base.Decimal.{parse_i64}
use evilresp.Base.Int.{ℤ, pos, negsuc}
use evilresp.Base.Utf8.{is_utf8}
use evilresp.Base.{
  ℕ, zero, suc, ◌+◌, ◌-◌, ◌*◌, ◌/◌, ◌^◌, Bool, true, false, ◌&&◌, not, List, [], ◌∷◌, ◌++◌, Option,
  none, some, length, take, drop, ltb, leb, ◌==◌, if◌then◌else◌,
}
use evilresp.Resp.Parse.{
  Prefix, prefix_of, dollar, bang, equals, star, tilde, greater, percent, bar, max_frame_bytes,
  max_frame_depth,
}

-- `ErrorKind::UnexpectedEof`, or `ErrorKind::InvalidData` for all other refusals. `out_of_fuel` has
-- no counterpart.
pub data ReadError : Type 0 where
  unexpected_eof invalid_data out_of_fuel : ReadError

pub data Read {ℓ} (A : Type ℓ) : Type ℓ where
  ok : A → Read A
  err : ReadError → Read A

abbrev pub bind {ℓ κ} : {A : Type ℓ} {B : Type κ} → Read A → (A → Read B) → Read B
bind (ok a) f = f a
bind (err e) f = err e

-- The buffer `raw` and what the stream still holds.
pub record Stream : Type 0 where
  pub raw : Bytes
  pub input : Bytes

-- `read_until(b'\n')` on a reader limited to `limit` bytes: what is read, and what is left.
unfoldable pub read_until_lf : ℕ → Bytes → Bytes × Bytes
read_until_lf zero input = ([], input)
read_until_lf (suc limit) [] = ([], [])
read_until_lf (suc limit) (c ∷ cs) =
    let (line, rest) = read_until_lf limit cs in if c == lf then (c ∷ [], cs) else (c ∷ line, rest)

-- The text in front of a final CR LF.
unfoldable pub strip_crlf : Bytes → Option Bytes
strip_crlf [] = none
strip_crlf (c ∷ []) = none
strip_crlf (c ∷ d ∷ []) = if c == cr && d == lf then some [] else none
strip_crlf (c ∷ d ∷ e ∷ s) = evilresp.Base.Options.map (◌∷◌ c) (strip_crlf (d ∷ e ∷ s))

stripped : Bytes → Stream → Option Bytes → Read (Bytes × Stream)
stripped [] s o = err unexpected_eof
stripped (c ∷ cs) s none = err invalid_data
stripped (c ∷ cs) s (some line) = ok (line, s)

unfoldable pub read_line_raw : Stream → Read (Bytes × Stream)
unfolding stripped
read_line_raw s =
    let (line, rest) = read_until_lf (max_frame_bytes - length s.raw) s.input in
    stripped line (record { raw = s.raw ++ line; input = rest }) (strip_crlf line)

len_of : Bool → Option ℤ → Read (Option ℕ)
len_of nullable none = err invalid_data
len_of nullable (some (pos n)) = ok (some n)
len_of true (some (negsuc zero)) = ok none
len_of nullable (some (negsuc n)) = err invalid_data

-- `none` for a nullable -1.
unfoldable pub parse_len : Bytes → Bool → Read (Option ℕ)
unfolding len_of
parse_len line nullable =
    if is_utf8 line then len_of nullable (parse_i64 line) else err invalid_data

ends_with_crlf : Bytes → Bool
ends_with_crlf [] = false
ends_with_crlf (c ∷ []) = false
ends_with_crlf (c ∷ d ∷ []) = c == cr && d == lf
ends_with_crlf (c ∷ d ∷ e ∷ s) = ends_with_crlf (d ∷ e ∷ s)

-- The body of a blob and its CR LF; an advertised length beyond 2^64 - 2 overflows.
unfoldable pub read_body : ℕ → Stream → Read Stream
unfolding ends_with_crlf
read_body len s =
    let raw = s.raw ++ take (len + 2) s.input in
    if leb (2 ^ 64) (len + 2)
    then err invalid_data
    else if ltb (max_frame_bytes - length s.raw) (len + 2)
    then err invalid_data
    else if not (length (take (len + 2) s.input) == (len + 2))
    then err unexpected_eof
    else if not (ends_with_crlf raw)
    then err invalid_data
    else ok (record { raw = raw; input = drop (len + 2) s.input })

-- The children that a header announces go on the stack, unless there are none.
unfoldable pub push_children : ℕ → ℕ → List ℕ → Stream → Read (List ℕ × Stream)
push_children factor len pending s =
    if leb (2 ^ 64) (len * factor)
    then err invalid_data
    else if ltb ((max_frame_bytes - length s.raw) / 3) (len * factor)
    then err invalid_data
    else if ltb 0 (len * factor)
    then ok ((len * factor) ∷ pending, s)
    else ok (pending, s)

unfoldable pub optional_body : List ℕ → Stream → Option ℕ → Read (List ℕ × Stream)
unfolding read_body
optional_body pending s none = ok (pending, s)
optional_body pending s (some len) = bind (read_body len s) λ t. ok (pending, t)

unfoldable pub optional_children : ℕ → List ℕ → Stream → Option ℕ → Read (List ℕ × Stream)
unfolding push_children
optional_children factor pending s none = ok (pending, s)
optional_children factor pending s (some len) = push_children factor len pending s

-- What follows the header line of a frame.
unfoldable pub read_rest : Prefix → Bytes → List ℕ → Stream → Read (List ℕ × Stream)
unfolding optional_body optional_children
read_rest dollar line pending s = bind (parse_len line true) (optional_body pending s)
read_rest bang line pending s = bind (parse_len line false) (optional_body pending s)
read_rest equals line pending s = bind (parse_len line false) (optional_body pending s)
read_rest star line pending s = bind (parse_len line true) (optional_children 1 pending s)
read_rest tilde line pending s = bind (parse_len line false) (optional_children 1 pending s)
read_rest greater line pending s = bind (parse_len line false) (optional_children 1 pending s)
read_rest percent line pending s = bind (parse_len line false) (optional_children 2 pending s)
read_rest bar line pending s = bind (parse_len line false) (optional_children 2 pending s)
read_rest _ line pending s = ok (pending, s)

-- The first byte and the header line, with `pending` the stack once a child has been counted off.
unfoldable pub read_header : List ℕ → Stream → Bytes → Read (List ℕ × Stream)
unfolding read_rest
read_header pending s [] = err unexpected_eof
read_header pending s (c ∷ cs) =
    bind (read_line_raw (record { raw = s.raw ++ c ∷ []; input = cs }))
      λ (line, t). read_rest (prefix_of c) line pending t

-- One frame's own bytes: its header line, and its body if it is a blob.
unfoldable pub read_one : List ℕ → Stream → Read (List ℕ × Stream)
unfolding read_header
read_one pending s =
    if ltb max_frame_depth (length pending)
    then err invalid_data
    else if length s.raw == max_frame_bytes
    then err invalid_data
    else read_header pending s s.input

-- The loop over the stack `pending` of children still to be read at each level of nesting.
unfoldable pub read_loop : ℕ → List ℕ → Stream → Read Stream
read_loop fuel [] s = ok s
read_loop zero (n ∷ pending) s = err out_of_fuel
read_loop (suc fuel) (zero ∷ pending) s = read_loop fuel pending s
read_loop (suc fuel) (suc n ∷ pending) s =
    bind (read_one (n ∷ pending) s) λ (pending', t). read_loop fuel pending' t

-- A round pops a level, or takes a byte off the stream and pushes one level at most.
unfoldable pub read_raw_frame : Bytes → Read Stream
read_raw_frame input =
    read_loop (2 * length input + 3) (1 ∷ []) (record { raw = []; input = input })
