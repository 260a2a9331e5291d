-- ===== src/Evil/Canonical.antt =====
-- src/evil.rs: `canonicalize_reply` and `canonicalize_transaction_reply`.
use evilresp.Base.Bytes.{Bytes, codes, equal, to_ascii_uppercase}
use evilresp.Base.Orders.{bytes_order, pair_order}
use evilresp.Base.Sort.{sort}
use evilresp.Base.{◌||◌, List, [], ◌∷◌, Option, none, some, if◌then◌else◌}
use evilresp.Evil.{CanonicalizationMode, all, unordered}
use evilresp.Evil
use evilresp.Resp.Encode.{encode}
use evilresp.Resp.Frame.{
  Frame, Frames, Pairs, nil, cons, end, pair, array, map, set, push, attribute,
}
use evilresp.Resp.Same.{items_of, frames_of}

abbrev pub sort_key : Frame → Bytes
sort_key f = encode f

-- The keys that the comparison of pairs reads.
abbrev pub pair_key : Frame × Frame → Bytes × Bytes
pair_key p = (sort_key p.0, sort_key p.1)

-- `Pairs` as a list, and back.
unfoldable pub pairs_of : Pairs → List (Frame × Frame)
pairs_of end = []
pairs_of (pair k v ps) = (k, v) ∷ pairs_of ps

unfoldable pub pairs_from : List (Frame × Frame) → Pairs
pairs_from [] = end
pairs_from (p ∷ ps) = pair p.0 p.1 (pairs_from ps)

unfoldable pub sort_items : Frames → Frames
unfolding items_of frames_of sort
sort_items items = frames_of (sort bytes_order sort_key (items_of items))

unfoldable pub sort_pairs : Pairs → Pairs
unfolding pairs_of pairs_from sort
sort_pairs items = pairs_from (sort pair_order pair_key (pairs_of items))

-- `canonicalize_all_containers`, with the loops over the children.
unfoldable mutual
  unfolding sort_items sort_pairs

  pub all_containers : Frame → Frame
  all_containers (array items) = array (sort_items (all_items items))
  all_containers (set items) = set (sort_items (all_items items))
  all_containers (push items) = push (sort_items (all_items items))
  all_containers (map items) = map (sort_pairs (all_pairs items))
  all_containers (attribute items) = attribute (sort_pairs (all_pairs items))
  all_containers frame = frame

  pub all_items : Frames → Frames
  all_items nil = nil
  all_items (cons f fs) = cons (all_containers f) (all_items fs)

  pub all_pairs : Pairs → Pairs
  all_pairs end = end
  all_pairs (pair k v ps) = pair (all_containers k) (all_containers v) (all_pairs ps)

-- `canonicalize_unordered_containers`.
unfoldable mutual
  unfolding sort_items sort_pairs

  pub unordered_containers : Frame → Frame
  unordered_containers (array items) = array (unordered_items items)
  unordered_containers (push items) = push (unordered_items items)
  unordered_containers (map items) = map (sort_pairs (unordered_pairs items))
  unordered_containers (attribute items) = attribute (sort_pairs (unordered_pairs items))
  unordered_containers (set items) = set (sort_items (unordered_items items))
  unordered_containers frame = frame

  pub unordered_items : Frames → Frames
  unordered_items nil = nil
  unordered_items (cons f fs) = cons (unordered_containers f) (unordered_items fs)

  pub unordered_pairs : Pairs → Pairs
  unordered_pairs end = end
  unordered_pairs (pair k v ps) =
      pair (unordered_containers k) (unordered_containers v) (unordered_pairs ps)

unfoldable pub array_items : Frame → Frame
unfolding unordered_containers sort_items
array_items (array items) = array (sort_items (unordered_items items))
array_items frame = frame

-- `as_chunks::<2>`: the pairs, and what is left.
unfoldable pub chunks : Frames → List (Frame × Frame)
chunks nil = []
chunks (cons k nil) = []
chunks (cons k (cons v fs)) = (k, v) ∷ chunks fs

unfoldable pub remainder : Frames → Frames
remainder nil = nil
remainder (cons k nil) = cons k nil
remainder (cons k (cons v fs)) = remainder fs

-- The pairs written out, in front of the remainder.
unfoldable pub flat : List (Frame × Frame) → Frames → Frames
flat [] rest = rest
flat (p ∷ ps) rest = cons p.0 (cons p.1 (flat ps rest))

unfoldable pub sort_chunks : Frames → Frames
unfolding chunks remainder flat sort
sort_chunks items = flat (sort pair_order pair_key (chunks items)) (remainder items)

unfoldable pub array_pairs : Frame → Frame
unfolding unordered_containers sort_chunks
array_pairs (array items) = array (sort_chunks (unordered_items items))
array_pairs frame = frame

-- What a command says of the array that it answers with.
pub data Contents : Type 0 where
  of_pairs of_items ordered : Contents

unfoldable pub contents_of : Bytes → Contents
contents_of word =
    if equal word (codes "HGETALL")
    then of_pairs
    else if equal word (codes "HKEYS")
        || (equal word (codes "HVALS")
            || (equal word (codes "SDIFF")
                || (equal word (codes "SINTER")
                    || (equal word (codes "SMEMBERS") || equal word (codes "SUNION")))))
    then of_items
    else ordered

abbrev pub contents : Option Bytes → Contents
contents none = ordered
contents (some command) = contents_of (to_ascii_uppercase command)

unfoldable pub by_contents : Contents → Frame → Frame
unfolding array_pairs array_items
by_contents of_pairs frame = array_pairs frame
by_contents of_items frame = array_items frame
by_contents ordered frame = frame

-- `canonicalize_unordered_reply`.
unfoldable pub unordered_reply : Option Bytes → Frame → Frame
unfolding by_contents unordered_containers contents_of
unordered_reply command frame = by_contents (contents command) (unordered_containers frame)

unfoldable pub canonicalize_reply : CanonicalizationMode → Option Bytes → Frame → Frame
unfolding all_containers unordered_reply
canonicalize_reply all command frame = all_containers frame
canonicalize_reply unordered command frame = unordered_reply command frame
canonicalize_reply Evil.CanonicalizationMode.none command frame = frame

-- `zip`: items behind the last command stay as they are.
unfoldable pub zipped : CanonicalizationMode → List Bytes → Frames → Frames
unfolding canonicalize_reply
zipped mode commands nil = nil
zipped mode [] (cons f fs) = cons f fs
zipped mode (c ∷ commands) (cons f fs) =
    cons (canonicalize_reply mode (some c) f) (zipped mode commands fs)

unfoldable pub canonicalize_transaction_reply : CanonicalizationMode → List Bytes → Frame → Frame
unfolding zipped
canonicalize_transaction_reply mode commands (array items) = array (zipped mode commands items)
canonicalize_transaction_reply mode commands frame = frame
