-- ===== src/Resp/Reader/Levels.antt =====
-- The rounds of the reader's loop on a line, and on an aggregate whose children are read.
use evilresp.Base.Bytes.{Bytes, crlf}
use evilresp.Base.Decimal.{decimal}
use evilresp.Base.{
  ℕ, zero, suc, ◌+◌, ◌*◌, ◌^◌, ◌≤◌, ◌<◌, ◌≡◌, refl, ap, ◌∙◌, arith, Bool, true, List, ◌∷◌, ◌++◌,
  append_assoc, append-nil, length, length-append, ltb, if◌then◌else◌,
}
use evilresp.Resp.Canonical.{
  canonical, canonical_items, canonical_pairs, count-le-wire, count_pairs-le-wire,
}
use evilresp.Resp.Frame.{Frame, Frames, Pairs, nil, cons, end, pair, count, count_pairs}
use evilresp.Resp.Parse.{prefix_of, max_frame_depth}
use evilresp.Resp.Reader.Pieces.{no_lf, after, read_one-line}
use evilresp.Resp.Reader.Rounds.{
  lf_free, lf_free_items, lf_free_pairs, rounds, rounds_items, rounds_pairs, rounds_level,
  rounds_pair_level, at, HasRoom, IsAggregate, read_one-children,
}
use evilresp.Resp.Reader.{ok, Stream, read_rest, read_one, read_loop}
use evilresp.Resp.Wire.{wire, wire_items, wire_pairs, depth, depth_items, depth_pairs}

-- A round that reads a frame with no children.
pub leaf :
    (fuel k m : ℕ) (ps : List ℕ) (s t : Stream)
    → fuel ≡ suc k
    → read_one (m ∷ ps) s ≡ ok (m ∷ ps, t)
    → read_loop fuel (suc m ∷ ps) s ≡ read_loop k (m ∷ ps) t
unfolding read_loop
leaf zero k m ps s t e h = absurd (omega arith)
leaf (suc fuel) k m ps s t e h =
    let same : fuel ≡ k = omega arith in rw h (ap (λ n. read_loop n (m ∷ ps) t) same)

-- A frame that is a line, whose prefix announces nothing behind it.
abbrev pub IsLine : ℕ → Type 0
IsLine c =
    (line : Bytes) (pending : List ℕ) (s : Stream)
    → read_rest (prefix_of c) line pending s ≡ ok (pending, s)

pub line_leaf :
    (c fuel k m : ℕ) (ps : List ℕ) (raw line rest : Bytes)
    → IsLine c
    → fuel ≡ suc k
    → no_lf line ≡ true
    → length ps + 1 ≤ max_frame_depth
    → HasRoom raw (c ∷ (line ++ crlf))
    → read_loop fuel (suc m ∷ ps) (at raw (c ∷ ((line ++ crlf) ++ rest)))
      ≡ read_loop k (m ∷ ps) (after raw (c ∷ (line ++ crlf)) rest)
line_leaf c fuel k m ps raw line rest leads e h d room = leaf fuel k m ps _ _ e (
    read_one-line c (m ∷ ps) raw line rest h (omega arith) (omega (arith, length-append line crlf))
    ∙ leads line (m ∷ ps) _)

-- A round that reads a header line, and the rounds for what it announces.
enter :
    (c : ℕ) (nullable : Bool) (factor n inner fuel k m : ℕ) (ps : List ℕ) (raw body rest : Bytes)
    → IsAggregate c nullable factor
    → fuel ≡ suc inner + k
    → length ps + 1 ≤ max_frame_depth
    → HasRoom raw (c ∷ ((decimal n ++ crlf) ++ body))
    → n < 2 ^ 63
    → 3 * (n * factor) ≤ length body
    → ((left : ℕ)
        → left ≡ inner + k
        → read_loop left
            (if ltb 0 (n * factor) then (n * factor) ∷ m ∷ ps else m ∷ ps)
            (after raw (c ∷ (decimal n ++ crlf)) (body ++ rest))
          ≡ read_loop k (m ∷ ps) (after (raw ++ c ∷ (decimal n ++ crlf)) body rest))
    → read_loop fuel (suc m ∷ ps) (at raw (c ∷ (((decimal n ++ crlf) ++ body) ++ rest)))
      ≡ read_loop k (m ∷ ps) (after raw (c ∷ ((decimal n ++ crlf) ++ body)) rest)
unfolding read_loop
enter c nullable factor n inner zero k m ps raw body rest kind e d room small fits go =
    absurd (omega arith)
enter c nullable factor n inner (suc fuel) k m ps raw body rest kind e d room small fits go =
    rw
      (read_one-children c nullable factor n (m ∷ ps) raw body rest kind (omega arith) room small
        fits)
      (go fuel (omega arith)
        ∙ ap (λ bytes. read_loop k (m ∷ ps) (at bytes rest))
            (append_assoc raw (c ∷ (decimal n ++ crlf)) body))

-- The rounds on the children of an aggregate, the one that leaves the level included.
items_level :
    (fs : Frames) (fuel k : ℕ) (ps : List ℕ) (raw rest : Bytes)
    → fuel ≡ rounds_level fs + k
    → read_loop (rounds_items fs + suc k) (count fs ∷ ps) (at raw (wire_items fs ++ rest))
      ≡ read_loop (suc k) (zero ∷ ps) (after raw (wire_items fs) rest)
    → read_loop fuel
        (if ltb 0 (count fs * 1) then (count fs * 1) ∷ ps else ps)
        (at raw (wire_items fs ++ rest))
      ≡ read_loop k ps (after raw (wire_items fs) rest)
unfolding read_loop rounds wire
items_level nil fuel k ps raw rest e go = let same : fuel ≡ k = omega arith in rw (same, append-nil)
items_level (cons f fs) fuel k ps raw rest e go =
    let same : fuel ≡ rounds_items (cons f fs) + suc k = omega arith in
    let one : suc (count fs) * 1 ≡ suc (count fs) = omega arith in
    let positive : ltb 0 (suc (count fs)) ≡ true = ground arith in rw (same, one, positive) go

pairs_level :
    (qs : Pairs) (fuel k : ℕ) (ps : List ℕ) (raw rest : Bytes)
    → fuel ≡ rounds_pair_level qs + k
    → read_loop
        (rounds_pairs qs + suc k)
        ((count_pairs qs * 2) ∷ ps)
        (at raw (wire_pairs qs ++ rest))
      ≡ read_loop (suc k) (zero ∷ ps) (after raw (wire_pairs qs) rest)
    → read_loop fuel
        (if ltb 0 (count_pairs qs * 2) then (count_pairs qs * 2) ∷ ps else ps)
        (at raw (wire_pairs qs ++ rest))
      ≡ read_loop k ps (after raw (wire_pairs qs) rest)
unfolding read_loop rounds wire
pairs_level end fuel k ps raw rest e go = let same : fuel ≡ k = omega arith in rw (same, append-nil)
pairs_level (pair key v qs) fuel k ps raw rest e go =
    let same : fuel ≡ rounds_pairs (pair key v qs) + suc k = omega arith in
    let some_left : ltb 0 (suc (count_pairs qs) * 2) ≡ true = ground arith in
    rw (same, some_left) go

-- What the induction needs of a frame, of the children of a sequence and of those of a map.
abbrev pub ReadsFrame : Frame → Type 0
ReadsFrame f =
    (fuel k m : ℕ) (ps : List ℕ) (raw rest : Bytes)
    → fuel ≡ rounds f + k
    → canonical f ≡ true
    → lf_free f ≡ true
    → length ps + depth f ≤ max_frame_depth
    → HasRoom raw (wire f)
    → read_loop fuel (suc m ∷ ps) (at raw (wire f ++ rest))
      ≡ read_loop k (m ∷ ps) (after raw (wire f) rest)

abbrev pub ReadsItems : Frames → Type 0
ReadsItems fs =
    (k : ℕ) (ps : List ℕ) (raw rest : Bytes)
    → canonical_items fs ≡ true
    → lf_free_items fs ≡ true
    → length ps + depth_items fs ≤ max_frame_depth
    → HasRoom raw (wire_items fs)
    → read_loop (rounds_items fs + k) (count fs ∷ ps) (at raw (wire_items fs ++ rest))
      ≡ read_loop k (zero ∷ ps) (after raw (wire_items fs) rest)

abbrev pub ReadsPairs : Pairs → Type 0
ReadsPairs qs =
    (k n : ℕ) (ps : List ℕ) (raw rest : Bytes)
    → n ≡ count_pairs qs * 2
    → canonical_pairs qs ≡ true
    → lf_free_pairs qs ≡ true
    → length ps + depth_pairs qs ≤ max_frame_depth
    → HasRoom raw (wire_pairs qs)
    → read_loop (rounds_pairs qs + k) (n ∷ ps) (at raw (wire_pairs qs ++ rest))
      ≡ read_loop k (zero ∷ ps) (after raw (wire_pairs qs) rest)

-- A sequence whose children are read, and a map.
pub sequence-frame :
    (c : ℕ) (nullable : Bool) (fs : Frames) (fuel k m : ℕ) (ps : List ℕ) (raw rest : Bytes)
    → IsAggregate c nullable 1
    → ReadsItems fs
    → fuel ≡ suc (rounds_level fs) + k
    → canonical_items fs ≡ true
    → lf_free_items fs ≡ true
    → length ps + suc (depth_items fs) ≤ max_frame_depth
    → HasRoom raw (c ∷ ((decimal (count fs) ++ crlf) ++ wire_items fs))
    → read_loop fuel
        (suc m ∷ ps)
        (at raw (c ∷ (((decimal (count fs) ++ crlf) ++ wire_items fs) ++ rest)))
      ≡ read_loop k (m ∷ ps) (after raw (c ∷ ((decimal (count fs) ++ crlf) ++ wire_items fs)) rest)
sequence-frame c nullable fs fuel k m ps raw rest kind reads e can l d room =
    let head : Bytes = c ∷ (decimal (count fs) ++ crlf) in
    let size = length-append (decimal (count fs) ++ crlf) (wire_items fs) in
    let fits = count-le-wire fs can in
    let inside : HasRoom (raw ++ head) (wire_items fs) =
      omega (arith, size, length-append raw head) in
    enter c nullable 1 (count fs) (rounds_level fs) fuel k m ps raw (wire_items fs) rest kind
      (omega arith) (omega arith) room (omega (arith, fits, size)) (omega (arith, fits))
      λ left same.
        items_level fs left k (m ∷ ps) (raw ++ head) rest same
          (reads (suc k) (m ∷ ps) (raw ++ head) rest can l (omega arith) inside)

pub map-frame :
    (c : ℕ) (nullable : Bool) (qs : Pairs) (fuel k m : ℕ) (ps : List ℕ) (raw rest : Bytes)
    → IsAggregate c nullable 2
    → ReadsPairs qs
    → fuel ≡ suc (rounds_pair_level qs) + k
    → canonical_pairs qs ≡ true
    → lf_free_pairs qs ≡ true
    → length ps + suc (depth_pairs qs) ≤ max_frame_depth
    → HasRoom raw (c ∷ ((decimal (count_pairs qs) ++ crlf) ++ wire_pairs qs))
    → read_loop fuel
        (suc m ∷ ps)
        (at raw (c ∷ (((decimal (count_pairs qs) ++ crlf) ++ wire_pairs qs) ++ rest)))
      ≡ read_loop k
          (m ∷ ps)
          (after raw (c ∷ ((decimal (count_pairs qs) ++ crlf) ++ wire_pairs qs)) rest)
map-frame c nullable qs fuel k m ps raw rest kind reads e can l d room =
    let head : Bytes = c ∷ (decimal (count_pairs qs) ++ crlf) in
    let size = length-append (decimal (count_pairs qs) ++ crlf) (wire_pairs qs) in
    let fits = count_pairs-le-wire qs can in
    let inside : HasRoom (raw ++ head) (wire_pairs qs) =
      omega (arith, size, length-append raw head) in
    enter c nullable 2 (count_pairs qs) (rounds_pair_level qs) fuel k m ps raw (wire_pairs qs) rest
      kind (omega arith) (omega arith) room (omega (arith, fits, size)) (omega (arith, fits))
      λ left same. pairs_level qs left k (m ∷ ps) (raw ++ head) rest same (
        reads (suc k) (count_pairs qs * 2) (m ∷ ps) (raw ++ head) rest refl can l (omega arith)
          inside)
