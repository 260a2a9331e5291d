-- ===== src/Resp/Encode.antt =====
-- src/resp.rs: `Frame::encode`, `encode_with_length` and `declared_length`.
use evilresp.Base.Bytes.{Bytes, codes, crlf}
use evilresp.Base.Decimal.{decimal, decimal_int}
use evilresp.Base.Int.{ℤ, pos, negsuc}
use evilresp.Base.{ℕ, suc, List, [], ◌∷◌, ◌++◌, Option, none, some, length, ◌==◌, if◌then◌else◌}
use evilresp.Resp.Frame.{
  Frame, Frames, Pairs, simple_string, simple_error, integer, bulk_string, array, null_array, null,
  boolean, double, big_number, bulk_error, verbatim_string, map, set, push, attribute, inline, nil,
  cons, end, pair, count, count_pairs,
}

-- `None` for a frame with no length header.
unfoldable pub declared_length : Frame → Option ℤ
declared_length (bulk_string none) = some (negsuc 0)
declared_length null_array = some (negsuc 0)
declared_length (bulk_string (some bytes)) = some (pos (length bytes))
declared_length (bulk_error bytes) = some (pos (length bytes))
declared_length (verbatim_string bytes) = some (pos (length bytes))
declared_length (array items) = some (pos (count items))
declared_length (set items) = some (pos (count items))
declared_length (push items) = some (pos (count items))
declared_length (map items) = some (pos (count_pairs items))
declared_length (attribute items) = some (pos (count_pairs items))
declared_length _ = none

-- `Option::unwrap_or`.
abbrev pub unwrap_or : Option Bytes → Bytes → Bytes
unwrap_or none d = d
unwrap_or (some s) d = s

abbrev pub push_line : ℕ → Bytes → Bytes
push_line prefix value = prefix ∷ (value ++ crlf)

abbrev pub push_blob : ℕ → Bytes → Option Bytes → Bytes
push_blob prefix bytes replacement =
    push_line prefix (unwrap_or replacement (decimal (length bytes))) ++ (bytes ++ crlf)

-- The parts of an inline command behind the first, each with a space in front.
abbrev pub spaced : List Bytes → Bytes
spaced [] = []
spaced (p ∷ ps) = b' ' ∷ (p ++ spaced ps)

abbrev pub join_parts : List Bytes → Bytes
join_parts [] = []
join_parts (p ∷ ps) = p ++ spaced ps

-- The callback `header`, which counts the frames that it has seen: `h i` is its answer at the
-- frame with pre-order index `i`.
abbrev pub Header : Type 0
Header = ℕ → Option Bytes

-- What `encode_into` appends for a frame with index `i`, and the index behind its last descendant.
unfoldable mutual
  pub encode_into : Header → Frame → ℕ → Bytes × ℕ
  encode_into h (simple_string value) i = (push_line b'+' value, suc i)
  encode_into h (simple_error value) i = (push_line b'-' value, suc i)
  encode_into h (integer value) i = (push_line b':' (decimal_int value), suc i)
  encode_into h (bulk_string (some bytes)) i = (push_blob b'$' bytes (h i), suc i)
  encode_into h (bulk_string none) i = (push_line b'$' (unwrap_or (h i) (codes "-1")), suc i)
  encode_into h (array items) i =
      let (body, j) = encode_items h items (suc i) in
      (push_line b'*' (unwrap_or (h i) (decimal (count items))) ++ body, j)
  encode_into h null_array i = (push_line b'*' (unwrap_or (h i) (codes "-1")), suc i)
  encode_into h null i = (push_line b'_' [], suc i)
  encode_into h (boolean value) i = (push_line b'#' (codes (if value then "t" else "f")), suc i)
  encode_into h (double value) i = (push_line b',' value, suc i)
  encode_into h (big_number value) i = (push_line b'(' value, suc i)
  encode_into h (bulk_error bytes) i = (push_blob b'!' bytes (h i), suc i)
  encode_into h (verbatim_string bytes) i = (push_blob b'=' bytes (h i), suc i)
  encode_into h (map items) i =
      let (body, j) = encode_pairs h items (suc i) in
      (push_line b'%' (unwrap_or (h i) (decimal (count_pairs items))) ++ body, j)
  encode_into h (set items) i =
      let (body, j) = encode_items h items (suc i) in
      (push_line b'~' (unwrap_or (h i) (decimal (count items))) ++ body, j)
  encode_into h (push items) i =
      let (body, j) = encode_items h items (suc i) in
      (push_line b'>' (unwrap_or (h i) (decimal (count items))) ++ body, j)
  encode_into h (attribute items) i =
      let (body, j) = encode_pairs h items (suc i) in
      (push_line b'|' (unwrap_or (h i) (decimal (count_pairs items))) ++ body, j)
  encode_into h (inline parts) i = (join_parts parts ++ crlf, suc i)

  pub encode_items : Header → Frames → ℕ → Bytes × ℕ
  encode_items h nil i = ([], i)
  encode_items h (cons f fs) i =
      let (first, j) = encode_into h f i in
      let (rest, k) = encode_items h fs j in (first ++ rest, k)

  pub encode_pairs : Header → Pairs → ℕ → Bytes × ℕ
  encode_pairs h end i = ([], i)
  encode_pairs h (pair key value ps) i =
      let (k, j) = encode_into h key i in
      let (v, l) = encode_into h value j in
      let (rest, m) = encode_pairs h ps l in (k ++ (v ++ rest), m)

abbrev pub no_header : Header
no_header i = none

unfoldable pub encode : Frame → Bytes
unfolding encode_into
encode f = (encode_into no_header f 0).0

-- The callback of `encode_with_length`.
abbrev pub replace_at : ℕ → Bytes → Header
replace_at target replacement i = if i == target then some replacement else none

unfoldable pub encode_with_length : Frame → ℕ → Bytes → Bytes
unfolding encode_into
encode_with_length f target replacement = (encode_into (replace_at target replacement) f 0).0
