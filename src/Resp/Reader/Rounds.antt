-- ===== src/Resp/Reader/Rounds.antt =====
-- One round of the reader's loop on a frame that the encoder wrote, and how many rounds there are.
use evilresp.Base.Bytes.{Bytes, crlf}
use evilresp.Base.Decimal.{decimal}
use evilresp.Base.{
  ℕ, suc, ◌+◌, ◌*◌, ◌^◌, ◌≤◌, ◌<◌, ◌≡◌, ap, ◌∙◌, arith, Bool, true, ◌&&◌, List, ◌∷◌, ◌++◌,
  append_assoc, length, length-append, ltb, if◌then◌else◌,
}
use evilresp.Resp.Frame.{
  Frame, Frames, Pairs, simple_string, simple_error, array, null, double, big_number, map, set,
  push, attribute, nil, cons, end, pair,
}
use evilresp.Resp.Parse.{prefix_of, max_frame_bytes, max_frame_depth}
use evilresp.Resp.Reader.Pieces.{
  no_lf, after, decimal-no_lf, read_one-line, parse_len-decimal, read_body-crlf, push_children-fits,
}
use evilresp.Resp.Reader.{
  ok, bind, optional_body, optional_children, Stream, parse_len, read_rest, read_one,
}

-- No line of text in the frame holds a line feed.
unfoldable mutual
  pub lf_free : Frame → Bool
  lf_free (simple_string s) = no_lf s
  lf_free (simple_error s) = no_lf s
  lf_free (double s) = no_lf s
  lf_free (big_number s) = no_lf s
  lf_free (array items) = lf_free_items items
  lf_free (map items) = lf_free_pairs items
  lf_free (set items) = lf_free_items items
  lf_free (push items) = lf_free_items items
  lf_free (attribute items) = lf_free_pairs items
  lf_free _ = true

  pub lf_free_items : Frames → Bool
  lf_free_items nil = true
  lf_free_items (cons f fs) = lf_free f && lf_free_items fs

  pub lf_free_pairs : Pairs → Bool
  lf_free_pairs end = true
  lf_free_pairs (pair k v ps) = lf_free k && lf_free v && lf_free_pairs ps

-- Rounds of the loop: one for each frame, and one to leave each level that was entered.
unfoldable mutual
  pub rounds : Frame → ℕ
  rounds (array items) = suc (rounds_level items)
  rounds (map items) = suc (rounds_pair_level items)
  rounds (set items) = suc (rounds_level items)
  rounds (push items) = suc (rounds_level items)
  rounds (attribute items) = suc (rounds_pair_level items)
  rounds _ = 1

  pub rounds_items : Frames → ℕ
  rounds_items nil = 0
  rounds_items (cons f fs) = rounds f + rounds_items fs

  pub rounds_pairs : Pairs → ℕ
  rounds_pairs end = 0
  rounds_pairs (pair k v ps) = rounds k + rounds v + rounds_pairs ps

  pub rounds_level : Frames → ℕ
  rounds_level nil = 0
  rounds_level (cons f fs) = suc (rounds f + rounds_items fs)

  pub rounds_pair_level : Pairs → ℕ
  rounds_pair_level end = 0
  rounds_pair_level (pair k v ps) = suc (rounds k + rounds v + rounds_pairs ps)

pub one-le-rounds : (f : Frame) → 1 ≤ rounds f
unfolding rounds
one-le-rounds null = omega arith
one-le-rounds _ = omega arith

abbrev pub at : Bytes → Bytes → Stream
at raw input = record { raw = raw; input = input }

-- Room for `bytes` behind `raw`.
abbrev pub HasRoom : Bytes → Bytes → Type 0
HasRoom raw bytes = length raw + length bytes ≤ max_frame_bytes

-- A header line, read with the bytes behind it left on the stream.
pub read_one-headed :
    (c : ℕ) (pending : List ℕ) (raw line body rest : Bytes)
    → no_lf line ≡ true
    → length pending ≤ max_frame_depth
    → HasRoom raw (c ∷ ((line ++ crlf) ++ body))
    → read_one pending (at raw (c ∷ (((line ++ crlf) ++ body) ++ rest)))
      ≡ read_rest (prefix_of c) line pending (after raw (c ∷ (line ++ crlf)) (body ++ rest))
read_one-headed c pending raw line body rest h d room = rw (append_assoc (line ++ crlf) body rest) (
    read_one-line c pending raw line (body ++ rest) h d
      (omega (arith, length-append (line ++ crlf) body, length-append line crlf)))

-- What is read behind the header line of a blob, and of an aggregate.
abbrev pub IsBlob : ℕ → Bool → Type 0
IsBlob c nullable =
    (line : Bytes) (pending : List ℕ) (s : Stream)
    → read_rest (prefix_of c) line pending s
      ≡ bind (parse_len line nullable) (optional_body pending s)

abbrev pub IsAggregate : ℕ → Bool → ℕ → Type 0
IsAggregate c nullable factor =
    (line : Bytes) (pending : List ℕ) (s : Stream)
    → read_rest (prefix_of c) line pending s
      ≡ bind (parse_len line nullable) (optional_children factor pending s)

pub read_one-blob :
    (c : ℕ) (nullable : Bool) (pending : List ℕ) (raw b rest : Bytes)
    → IsBlob c nullable
    → length pending ≤ max_frame_depth
    → HasRoom raw (c ∷ ((decimal (length b) ++ crlf) ++ (b ++ crlf)))
    → read_one pending (at raw (c ∷ (((decimal (length b) ++ crlf) ++ (b ++ crlf)) ++ rest)))
      ≡ ok (pending, after raw (c ∷ ((decimal (length b) ++ crlf) ++ (b ++ crlf))) rest)
unfolding optional_body
read_one-blob c nullable pending raw b rest k d room =
    let head : Bytes = c ∷ (decimal (length b) ++ crlf) in
    let sizes = length-append (decimal (length b) ++ crlf) (b ++ crlf) in
    let fits : length (raw ++ head) + length b + 2 ≤ max_frame_bytes =
      omega (arith, length-append raw head, sizes, length-append b crlf) in
    read_one-headed c pending raw (decimal (length b)) (b ++ crlf) rest (decimal-no_lf (length b)) d
      room
    ∙ rw
        (
          k,
          parse_len-decimal (length b) nullable (omega arith),
          read_body-crlf (raw ++ head) b rest fits,
        )
        (ap (λ bytes. ok (pending, at bytes rest)) (append_assoc raw head (b ++ crlf)))

pub read_one-children :
    (c : ℕ) (nullable : Bool) (factor n : ℕ) (pending : List ℕ) (raw body rest : Bytes)
    → IsAggregate c nullable factor
    → length pending ≤ max_frame_depth
    → HasRoom raw (c ∷ ((decimal n ++ crlf) ++ body))
    → n < 2 ^ 63
    → 3 * (n * factor) ≤ length body
    → read_one pending (at raw (c ∷ (((decimal n ++ crlf) ++ body) ++ rest)))
      ≡ ok (
        (if ltb 0 (n * factor) then (n * factor) ∷ pending else pending),
        after raw (c ∷ (decimal n ++ crlf)) (body ++ rest),
      )
unfolding optional_children
read_one-children c nullable factor n pending raw body rest k d room small fits =
    let head : Bytes = c ∷ (decimal n ++ crlf) in
    read_one-headed c pending raw (decimal n) body rest (decimal-no_lf n) d room
    ∙ rw (k, parse_len-decimal n nullable small)
        (push_children-fits factor n pending (after raw head (body ++ rest))
          (omega (arith, length-append raw head, length-append (decimal n ++ crlf) body)))
