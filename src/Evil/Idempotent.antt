-- ===== src/Evil/Idempotent.antt =====
-- A canonical reply is canonical already.
use evilresp.Base.Bytes.{Bytes}
use evilresp.Base.{◌≡◌, refl, ◌∙◌, ap, Option}
use evilresp.Evil.Canonical.{
  sort_items, sort_pairs, pairs_of, all_containers, all_items, all_pairs, unordered_containers,
  unordered_items, unordered_pairs, array_items, array_pairs, sort_chunks, Contents, of_pairs,
  of_items, ordered, contents, by_contents, unordered_reply, canonicalize_reply,
}
use evilresp.Evil.Sorted.{
  sort_items_idempotent, sort_pairs_idempotent, sort_chunks_idempotent, Fixed, FixedItems,
  FixedPairs, sort_items-FixedItems, sort_pairs-FixedPairs, sort_chunks-FixedItems,
}
use evilresp.Evil.{CanonicalizationMode, all, unordered}
use evilresp.Evil
use evilresp.Resp.Frame.{
  Frame, Frames, Pairs, nil, cons, end, pair, array, map, set, push, attribute,
}
use evilresp.Resp.Same.{items_of}

all_items_kept : (fs : Frames) → FixedItems all_containers fs → all_items fs ≡ fs
unfolding all_containers items_of
all_items_kept nil h = refl
all_items_kept (cons f fs) (first, rest) = cc (first, all_items_kept fs rest)

all_pairs_kept : (ps : Pairs) → FixedPairs all_containers ps → all_pairs ps ≡ ps
unfolding all_containers pairs_of
all_pairs_kept end h = refl
all_pairs_kept (pair k v ps) ((hk, hv), rest) = cc (hk, hv, all_pairs_kept ps rest)

all_items_again :
    (fs : Frames)
    → FixedItems all_containers fs
    → sort_items (all_items (sort_items fs)) ≡ sort_items fs
all_items_again fs h =
    ap sort_items (all_items_kept (sort_items fs) (sort_items-FixedItems all_containers fs h))
    ∙ sort_items_idempotent fs

all_pairs_again :
    (ps : Pairs)
    → FixedPairs all_containers ps
    → sort_pairs (all_pairs (sort_pairs ps)) ≡ sort_pairs ps
all_pairs_again ps h =
    ap sort_pairs (all_pairs_kept (sort_pairs ps) (sort_pairs-FixedPairs all_containers ps h))
    ∙ sort_pairs_idempotent ps

mutual
  unfolding all_containers items_of pairs_of

  all_containers-Fixed : (f : Frame) → Fixed all_containers (all_containers f)
  all_containers-Fixed (array items) =
      ap array (all_items_again (all_items items) (all_items-FixedItems items))
  all_containers-Fixed (set items) =
      ap set (all_items_again (all_items items) (all_items-FixedItems items))
  all_containers-Fixed (push items) =
      ap push (all_items_again (all_items items) (all_items-FixedItems items))
  all_containers-Fixed (map items) =
      ap map (all_pairs_again (all_pairs items) (all_pairs-FixedPairs items))
  all_containers-Fixed (attribute items) =
      ap attribute (all_pairs_again (all_pairs items) (all_pairs-FixedPairs items))
  all_containers-Fixed _ = refl

  all_items-FixedItems : (fs : Frames) → FixedItems all_containers (all_items fs)
  all_items-FixedItems nil = tt
  all_items-FixedItems (cons f fs) = (all_containers-Fixed f, all_items-FixedItems fs)

  all_pairs-FixedPairs : (ps : Pairs) → FixedPairs all_containers (all_pairs ps)
  all_pairs-FixedPairs end = tt
  all_pairs-FixedPairs (pair k v ps) =
      ((all_containers-Fixed k, all_containers-Fixed v), all_pairs-FixedPairs ps)

unordered_items_kept : (fs : Frames) → FixedItems unordered_containers fs → unordered_items fs ≡ fs
unfolding unordered_containers items_of
unordered_items_kept nil h = refl
unordered_items_kept (cons f fs) (first, rest) = cc (first, unordered_items_kept fs rest)

unordered_pairs_kept : (ps : Pairs) → FixedPairs unordered_containers ps → unordered_pairs ps ≡ ps
unfolding unordered_containers pairs_of
unordered_pairs_kept end h = refl
unordered_pairs_kept (pair k v ps) ((hk, hv), rest) = cc (hk, hv, unordered_pairs_kept ps rest)

unordered_items_again :
    (fs : Frames)
    → FixedItems unordered_containers fs
    → unordered_items (sort_items fs) ≡ sort_items fs
unordered_items_again fs h =
    unordered_items_kept (sort_items fs) (sort_items-FixedItems unordered_containers fs h)

unordered_pairs_again :
    (ps : Pairs)
    → FixedPairs unordered_containers ps
    → sort_pairs (unordered_pairs (sort_pairs ps)) ≡ sort_pairs ps
unordered_pairs_again ps h =
    ap sort_pairs
      (unordered_pairs_kept (sort_pairs ps) (sort_pairs-FixedPairs unordered_containers ps h))
    ∙ sort_pairs_idempotent ps

mutual
  unfolding unordered_containers items_of pairs_of

  unordered_containers-Fixed : (f : Frame) → Fixed unordered_containers (unordered_containers f)
  unordered_containers-Fixed (array items) =
      ap array (unordered_items_kept (unordered_items items) (unordered_items-FixedItems items))
  unordered_containers-Fixed (push items) =
      ap push (unordered_items_kept (unordered_items items) (unordered_items-FixedItems items))
  unordered_containers-Fixed (set items) = ap set (
      ap sort_items
        (unordered_items_again (unordered_items items) (unordered_items-FixedItems items))
      ∙ sort_items_idempotent (unordered_items items))
  unordered_containers-Fixed (map items) =
      ap map (unordered_pairs_again (unordered_pairs items) (unordered_pairs-FixedPairs items))
  unordered_containers-Fixed (attribute items) =
      ap attribute
        (unordered_pairs_again (unordered_pairs items) (unordered_pairs-FixedPairs items))
  unordered_containers-Fixed _ = refl

  unordered_items-FixedItems : (fs : Frames) → FixedItems unordered_containers (unordered_items fs)
  unordered_items-FixedItems nil = tt
  unordered_items-FixedItems (cons f fs) =
      (unordered_containers-Fixed f, unordered_items-FixedItems fs)

  unordered_pairs-FixedPairs : (ps : Pairs) → FixedPairs unordered_containers (unordered_pairs ps)
  unordered_pairs-FixedPairs end = tt
  unordered_pairs-FixedPairs (pair k v ps) =
      ((unordered_containers-Fixed k, unordered_containers-Fixed v), unordered_pairs-FixedPairs ps)

-- The items of an array that were sorted, with containers that are canonical.
sorted_again :
    (again : Frames → Frames) (fs : Frames)
    → ((gs : Frames) → again (again gs) ≡ again gs)
    → ((gs : Frames)
        → FixedItems unordered_containers gs
        → FixedItems unordered_containers (again gs))
    → FixedItems unordered_containers fs
    → again (unordered_items (unordered_items (again (unordered_items fs))))
      ≡ again (unordered_items fs)
sorted_again again fs idempotent fixed h =
    let kept = unordered_items_kept fs h in
    let kept' = unordered_items_kept (again fs) (fixed fs h) in cc (kept, kept', idempotent fs)

array_items_again :
    (f : Frame)
    → array_items (unordered_containers (array_items (unordered_containers f)))
      ≡ array_items (unordered_containers f)
unfolding array_items unordered_containers
array_items_again (array items) = ap array (
    sorted_again sort_items (unordered_items items) sort_items_idempotent
      (sort_items-FixedItems unordered_containers) (unordered_items-FixedItems items))
array_items_again f = ap array_items (unordered_containers-Fixed f)

array_pairs_again :
    (f : Frame)
    → array_pairs (unordered_containers (array_pairs (unordered_containers f)))
      ≡ array_pairs (unordered_containers f)
unfolding array_pairs unordered_containers
array_pairs_again (array items) = ap array (
    sorted_again sort_chunks (unordered_items items) sort_chunks_idempotent
      (sort_chunks-FixedItems unordered_containers) (unordered_items-FixedItems items))
array_pairs_again f = ap array_pairs (unordered_containers-Fixed f)

-- Of a reply whose containers are canonical, by the contents of its array.
by_contents_again :
    (c : Contents) (f : Frame)
    → by_contents c (unordered_containers (by_contents c (unordered_containers f)))
      ≡ by_contents c (unordered_containers f)
unfolding by_contents
by_contents_again ordered f = unordered_containers-Fixed f
by_contents_again of_items f = array_items_again f
by_contents_again of_pairs f = array_pairs_again f

-- Canonicalization, once done, changes nothing more, in every mode and for every command.
pub canonicalize_reply_idempotent :
    (mode : CanonicalizationMode) (command : Option Bytes) (f : Frame)
    → canonicalize_reply mode command (canonicalize_reply mode command f)
      ≡ canonicalize_reply mode command f
unfolding canonicalize_reply unordered_reply
canonicalize_reply_idempotent all command f = all_containers-Fixed f
canonicalize_reply_idempotent unordered command f = by_contents_again (contents command) f
canonicalize_reply_idempotent Evil.CanonicalizationMode.none command f = refl
