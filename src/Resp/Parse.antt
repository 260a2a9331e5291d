-- ===== src/Resp/Parse.antt =====
-- src/resp.rs: `parse_frame` and the methods of `Parser`. A method takes the bytes from `position`
-- on and returns those that it leaves; `depth` is counted down, as the levels still allowed.
use evilresp.Base.Bytes.{Bytes, cr, lf, is_ascii_whitespace}
use evilresp.Base.Decimal.{parse_i64}
use evilresp.Base.Int.{ℤ, pos, negsuc}
use evilresp.Base.Utf8.{is_utf8}
use evilresp.Base.{
  ℕ, zero, suc, ◌-◌, ◌/◌, true, false, ◌&&◌, ◌||◌, not, List, [], ◌∷◌, ◌++◌, Option, none, some,
  length, take, drop, ltb, ◌==◌, if◌then◌else◌,
}
use evilresp.Resp.Frame.{
  Frame, Frames, Pairs, simple_string, simple_error, integer, bulk_string, array, null_array, null,
  boolean, double, big_number, bulk_error, verbatim_string, map, set, push, attribute, inline, nil,
  cons, end, pair,
}
use evilresp.Resp.Result.{
  Result, ok, err, Parser, bind, pure, fail, ◌>>=◌, frame_too_large, trailing_bytes, too_deep,
  empty_input, null_with_data, invalid_boolean, negative_blob, negative_aggregate, negative_map,
  truncated_aggregate, truncated_blob, blob_missing_crlf, invalid_integer, invalid_utf8,
  missing_terminator, invalid_length,
}

-- 64 * 1024 * 1024.
abbrev pub max_frame_bytes : ℕ
max_frame_bytes = 67_108_864

abbrev pub max_frame_depth : ℕ
max_frame_depth = 128

-- The first byte of a frame.
pub data Prefix : Type 0 where
  plus minus colon dollar star underscore hash comma paren bang equals percent tilde : Prefix
  greater bar other : Prefix

unfoldable pub prefix_of : ℕ → Prefix
prefix_of c =
    if c == b'+'
    then plus
    else if c == b'-'
    then minus
    else if c == b':'
    then colon
    else if c == b'$'
    then dollar
    else if c == b'*'
    then star
    else if c == b'_'
    then underscore
    else if c == b'#'
    then hash
    else if c == b','
    then comma
    else if c == b'('
    then paren
    else if c == b'!'
    then bang
    else if c == b'='
    then equals
    else if c == b'%'
    then percent
    else if c == b'~'
    then tilde
    else if c == b'>'
    then greater
    else if c == b'|'
    then bar
    else other

cons_line : ℕ → Result (Bytes × Bytes) → Result (Bytes × Bytes)
cons_line c r = bind r λ (line, rest). ok (c ∷ line, rest)

-- The line up to the first CR LF, which is skipped.
unfoldable pub take_line : Parser Bytes
unfolding cons_line
take_line [] = err missing_terminator
take_line (c ∷ []) = err missing_terminator
take_line (c ∷ d ∷ rest) =
    let more = cons_line c (take_line (d ∷ rest)) in
    if c == cr && d == lf then ok ([], rest) else more

unfoldable pub take_utf8_line : Parser Bytes
take_utf8_line = do line ← take_line; if is_utf8 line then pure line else fail invalid_utf8

integer_of : Option ℤ → Parser ℤ
integer_of none = fail invalid_integer
integer_of (some z) = pure z

unfoldable pub take_i64_line : Parser ℤ
unfolding integer_of
take_i64_line = do line ← take_utf8_line; integer_of (parse_i64 line)

-- `take_byte() != Some(b'\r') || take_byte() != Some(b'\n')`.
unfoldable pub expect_crlf : Bytes → Parser Bytes
expect_crlf blob [] = err blob_missing_crlf
expect_crlf blob (c ∷ []) = err blob_missing_crlf
expect_crlf blob (c ∷ d ∷ rest) =
    if not (c == cr) || not (d == lf) then err blob_missing_crlf else ok (blob, rest)

-- The length is not negative at a call; `usize_len` refuses it otherwise.
unfoldable pub take_blob : ℤ → Parser Bytes
unfolding expect_crlf
take_blob (negsuc n) bytes = err invalid_length
take_blob (pos len) bytes =
    if ltb (length bytes) 2 || ltb (length bytes - 2) len
    then err truncated_blob
    else expect_crlf (take len bytes) (drop len bytes)

unfoldable pub optional_blob : ℤ → Parser (Option Bytes)
unfolding take_blob
optional_blob (negsuc zero) = pure none
optional_blob len = do blob ← take_blob len; pure (some blob)

unfoldable pub required_blob : ℤ → Parser Bytes
unfolding take_blob
required_blob (negsuc n) = fail negative_blob
required_blob (pos n) = take_blob (pos n)

-- `line.split(u8::is_ascii_whitespace)` without the empty parts; `part` is the one being read.
unfoldable pub split_words : Bytes → Bytes → List Bytes
split_words [] [] = []
split_words (b ∷ part) [] = (b ∷ part) ∷ []
split_words [] (c ∷ cs) =
    let word = split_words (c ∷ []) cs in if is_ascii_whitespace c then split_words [] cs else word
split_words (b ∷ part) (c ∷ cs) =
    let word = split_words (b ∷ (part ++ c ∷ [])) cs in
    let next = split_words [] cs in if is_ascii_whitespace c then (b ∷ part) ∷ next else word

unfoldable pub shell_words : Bytes → List Bytes
unfolding split_words
shell_words line = split_words [] line

inline_frame : ℕ → List Bytes → Frame
inline_frame first [] = inline ((first ∷ []) ∷ [])
inline_frame first (p ∷ ps) = inline (p ∷ ps)

-- The first byte is given back before the line is read.
unfoldable pub parse_inline : ℕ → Parser Frame
unfolding inline_frame shell_words
parse_inline first rest =
    (do line ← take_line; pure (inline_frame first (shell_words line))) (first ∷ rest)

unfoldable pub parse_null : Bytes → Parser Frame
parse_null [] = pure null
parse_null (c ∷ cs) = fail null_with_data

unfoldable pub parse_boolean : Bytes → Parser Frame
parse_boolean (c ∷ []) =
    if c == b't'
    then pure (boolean true)
    else if c == b'f'
    then pure (boolean false)
    else fail invalid_boolean
parse_boolean _ = fail invalid_boolean

-- The loops `for _ in 0..len`; the first argument is `self.parse_frame`.
unfoldable pub read_frames : Parser Frame → ℕ → Parser Frames
read_frames frame zero = pure nil
read_frames frame (suc n) = do f ← frame; fs ← read_frames frame n; pure (cons f fs)

unfoldable pub read_pairs : Parser Frame → ℕ → Parser Pairs
read_pairs frame zero = pure end
read_pairs frame (suc n) = do k ← frame; v ← frame; ps ← read_pairs frame n; pure (pair k v ps)

-- `validate_sequence_len`, with the loop that follows it.
unfoldable pub validated {ℓ} : {A : Type ℓ} → ℕ → ℤ → (ℕ → Parser A) → Parser A
validated minimum (negsuc n) body bytes = err invalid_length
validated minimum (pos len) body bytes =
    if ltb (length bytes / minimum) len then err truncated_aggregate else body len bytes

unfoldable pub read_sequence : Parser Frame → ℤ → Parser Frames
unfolding validated read_frames
read_sequence frame len = validated 3 len (read_frames frame)

unfoldable pub optional_sequence : Parser Frame → ℤ → Parser Frame
unfolding read_sequence
optional_sequence frame (negsuc zero) = pure null_array
optional_sequence frame len = do items ← read_sequence frame len; pure (array items)

unfoldable pub required_sequence : Parser Frame → ℤ → Parser Frames
unfolding read_sequence
required_sequence frame (negsuc n) = fail negative_aggregate
required_sequence frame (pos n) = read_sequence frame (pos n)

unfoldable pub map_like : Parser Frame → ℤ → Parser Pairs
unfolding validated read_pairs
map_like frame (negsuc n) = fail negative_map
map_like frame (pos n) = validated 6 (pos n) (read_pairs frame)

-- `parse_frame_inner` behind the first byte.
unfoldable pub parse_kind : Parser Frame → ℕ → Prefix → Parser Frame
unfolding optional_blob required_blob optional_sequence required_sequence map_like parse_null
    parse_boolean parse_inline
parse_kind frame first plus = do s ← take_utf8_line; pure (simple_string s)
parse_kind frame first minus = do s ← take_utf8_line; pure (simple_error s)
parse_kind frame first colon = do z ← take_i64_line; pure (integer z)
parse_kind frame first dollar = do
  len ← take_i64_line
  blob ← optional_blob len
  pure (bulk_string blob)
parse_kind frame first star = do len ← take_i64_line; optional_sequence frame len
parse_kind frame first underscore = do line ← take_line; parse_null line
parse_kind frame first hash = do line ← take_line; parse_boolean line
parse_kind frame first comma = do s ← take_utf8_line; pure (double s)
parse_kind frame first paren = do s ← take_utf8_line; pure (big_number s)
parse_kind frame first bang = do
  len ← take_i64_line
  blob ← required_blob len
  pure (bulk_error blob)
parse_kind frame first equals = do
  len ← take_i64_line
  blob ← required_blob len
  pure (verbatim_string blob)
parse_kind frame first percent = do
  len ← take_i64_line
  items ← map_like frame len
  pure (map items)
parse_kind frame first tilde = do
  len ← take_i64_line
  items ← required_sequence frame len
  pure (set items)
parse_kind frame first greater = do
  len ← take_i64_line
  items ← required_sequence frame len
  pure (push items)
parse_kind frame first bar = do
  len ← take_i64_line
  items ← map_like frame len
  pure (attribute items)
parse_kind frame first other = parse_inline first

unfoldable pub parse_frame_inner : Parser Frame → Parser Frame
unfolding parse_kind prefix_of
parse_frame_inner frame [] = err empty_input
parse_frame_inner frame (c ∷ rest) = parse_kind frame c (prefix_of c) rest

-- `Parser::parse_frame` with `levels` = MAX_FRAME_DEPTH - depth.
unfoldable pub parse_levels : ℕ → Parser Frame
unfolding parse_frame_inner
parse_levels zero = fail too_deep
parse_levels (suc levels) = parse_frame_inner (parse_levels levels)

unfoldable pub finish : ℕ → Frame × Bytes → Result Frame
finish total (frame, []) = ok frame
finish total (frame, rest) = err (trailing_bytes (total - length rest))

unfoldable pub parse_frame : Bytes → Result Frame
unfolding finish
parse_frame bytes =
    if ltb max_frame_bytes (length bytes)
    then err frame_too_large
    else bind (parse_levels max_frame_depth bytes) (finish (length bytes))
