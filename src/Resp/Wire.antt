-- ===== src/Resp/Wire.antt =====
-- The bytes of a frame with no callback and no index: what `encode` writes, as a plain recursion.
use evilresp.Base.Bytes.{Bytes, codes, crlf}
use evilresp.Base.Decimal.{decimal, decimal_int}
use evilresp.Base.{ℕ, suc, ◌≡◌, refl, ap, [], ◌++◌, none, some, max, if◌then◌else◌}
use evilresp.Resp.Frame.{
  Frame, Frames, Pairs, simple_string, simple_error, integer, bulk_string, array, null_array, null,
  boolean, double, big_number, bulk_error, verbatim_string, map, set, push, attribute, inline, nil,
  cons, end, pair, count, count_pairs,
}
use evilresp.Resp.Encode.{
  push_line, push_blob, join_parts, encode_into, encode_items, encode_pairs, encode, no_header,
}

unfoldable mutual
  pub wire : Frame → Bytes
  wire (simple_string value) = push_line b'+' value
  wire (simple_error value) = push_line b'-' value
  wire (integer value) = push_line b':' (decimal_int value)
  wire (bulk_string (some bytes)) = push_blob b'$' bytes none
  wire (bulk_string none) = push_line b'$' (codes "-1")
  wire (array items) = push_line b'*' (decimal (count items)) ++ wire_items items
  wire null_array = push_line b'*' (codes "-1")
  wire null = push_line b'_' []
  wire (boolean value) = push_line b'#' (codes (if value then "t" else "f"))
  wire (double value) = push_line b',' value
  wire (big_number value) = push_line b'(' value
  wire (bulk_error bytes) = push_blob b'!' bytes none
  wire (verbatim_string bytes) = push_blob b'=' bytes none
  wire (map items) = push_line b'%' (decimal (count_pairs items)) ++ wire_pairs items
  wire (set items) = push_line b'~' (decimal (count items)) ++ wire_items items
  wire (push items) = push_line b'>' (decimal (count items)) ++ wire_items items
  wire (attribute items) = push_line b'|' (decimal (count_pairs items)) ++ wire_pairs items
  wire (inline parts) = join_parts parts ++ crlf

  pub wire_items : Frames → Bytes
  wire_items nil = []
  wire_items (cons f fs) = wire f ++ wire_items fs

  pub wire_pairs : Pairs → Bytes
  wire_pairs end = []
  wire_pairs (pair k v ps) = wire k ++ (wire v ++ wire_pairs ps)

-- Levels of nesting; a frame with no children has one.
unfoldable mutual
  pub depth : Frame → ℕ
  depth (array items) = suc (depth_items items)
  depth (map items) = suc (depth_pairs items)
  depth (set items) = suc (depth_items items)
  depth (push items) = suc (depth_items items)
  depth (attribute items) = suc (depth_pairs items)
  depth _ = 1

  pub depth_items : Frames → ℕ
  depth_items nil = 0
  depth_items (cons f fs) = max (depth f) (depth_items fs)

  pub depth_pairs : Pairs → ℕ
  depth_pairs end = 0
  depth_pairs (pair k v ps) = max (depth k) (max (depth v) (depth_pairs ps))

mutual
  unfolding encode_into wire

  pub encode_into-wire : (f : Frame) (i : ℕ) → (encode_into no_header f i).0 ≡ wire f
  encode_into-wire (bulk_string (some bytes)) i = refl
  encode_into-wire (bulk_string none) i = refl
  encode_into-wire (array items) i =
      ap (λ b. push_line b'*' (decimal (count items)) ++ b) (encode_items-wire items (suc i))
  encode_into-wire (map items) i =
      ap (λ b. push_line b'%' (decimal (count_pairs items)) ++ b) (encode_pairs-wire items (suc i))
  encode_into-wire (set items) i =
      ap (λ b. push_line b'~' (decimal (count items)) ++ b) (encode_items-wire items (suc i))
  encode_into-wire (push items) i =
      ap (λ b. push_line b'>' (decimal (count items)) ++ b) (encode_items-wire items (suc i))
  encode_into-wire (attribute items) i =
      ap (λ b. push_line b'|' (decimal (count_pairs items)) ++ b) (encode_pairs-wire items (suc i))
  encode_into-wire _ i = refl

  encode_items-wire : (fs : Frames) (i : ℕ) → (encode_items no_header fs i).0 ≡ wire_items fs
  encode_items-wire nil i = refl
  encode_items-wire (cons f fs) i =
      cc (encode_into-wire f i, encode_items-wire fs (encode_into no_header f i).1)

  encode_pairs-wire : (ps : Pairs) (i : ℕ) → (encode_pairs no_header ps i).0 ≡ wire_pairs ps
  encode_pairs-wire end i = refl
  encode_pairs-wire (pair k v ps) i =
      let j = (encode_into no_header k i).1 in
      cc (
        encode_into-wire k i,
        encode_into-wire v j,
        encode_pairs-wire ps (encode_into no_header v j).1,
      )

pub encode-wire : (f : Frame) → encode f ≡ wire f
unfolding encode
encode-wire f = encode_into-wire f 0
