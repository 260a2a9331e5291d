-- ===== src/Evil/Sorted.antt =====
-- The sorted vectors of `Evil/Canonical`.
use evilresp.Base.Orders.{bytes_order, pair_order}
use evilresp.Base.Sort.{sort, sort-IsSorted, sort_sorted, sort-All}
use evilresp.Base.{◌≡◌, refl, ap, List, [], ◌∷◌, All}
use evilresp.Evil.Canonical.{
  sort_key, pair_key, pairs_of, pairs_from, sort_items, sort_pairs, chunks, remainder, flat,
  sort_chunks,
}
use evilresp.Resp.Frame.{Frame, Frames, Pairs, nil, cons}
use evilresp.Resp.Same.{items_of, frames_of}

pub items_of-frames_of : (xs : List Frame) → items_of (frames_of xs) ≡ xs
unfolding items_of frames_of
items_of-frames_of [] = refl
items_of-frames_of (x ∷ xs) = ap (◌∷◌ x) (items_of-frames_of xs)

pairs_of-pairs_from : (xs : List (Frame × Frame)) → pairs_of (pairs_from xs) ≡ xs
unfolding pairs_of pairs_from
pairs_of-pairs_from [] = refl
pairs_of-pairs_from (x ∷ xs) = ap (◌∷◌ x) (pairs_of-pairs_from xs)

-- Sorting is done once and for all.
pub sort_items_idempotent : (fs : Frames) → sort_items (sort_items fs) ≡ sort_items fs
unfolding sort_items
sort_items_idempotent fs =
    let xs = sort bytes_order sort_key (items_of fs) in
    rw (items_of-frames_of xs) (
      ap frames_of
        (sort_sorted bytes_order sort_key xs (sort-IsSorted bytes_order sort_key (items_of fs))))

pub sort_pairs_idempotent : (ps : Pairs) → sort_pairs (sort_pairs ps) ≡ sort_pairs ps
unfolding sort_pairs
sort_pairs_idempotent ps =
    let xs = sort pair_order pair_key (pairs_of ps) in
    rw (pairs_of-pairs_from xs) (
      ap pairs_from
        (sort_sorted pair_order pair_key xs (sort-IsSorted pair_order pair_key (pairs_of ps))))

chunks-flat : (ps : List (Frame × Frame)) (fs : Frames) → chunks (flat ps (remainder fs)) ≡ ps
unfolding chunks flat remainder
chunks-flat [] nil = refl
chunks-flat [] (cons k nil) = refl
chunks-flat [] (cons k (cons v fs)) = chunks-flat [] fs
chunks-flat (p ∷ ps) fs = ap (◌∷◌ p) (chunks-flat ps fs)

remainder-flat :
    (ps : List (Frame × Frame)) (fs : Frames) → remainder (flat ps (remainder fs)) ≡ remainder fs
unfolding flat remainder
remainder-flat [] nil = refl
remainder-flat [] (cons k nil) = refl
remainder-flat [] (cons k (cons v fs)) = remainder-flat [] fs
remainder-flat (p ∷ ps) fs = remainder-flat ps fs

pub sort_chunks_idempotent : (fs : Frames) → sort_chunks (sort_chunks fs) ≡ sort_chunks fs
unfolding sort_chunks
sort_chunks_idempotent fs =
    let xs = sort pair_order pair_key (chunks fs) in
    rw (chunks-flat xs fs, remainder-flat xs fs)
      (ap (λ ps. flat ps (remainder fs))
        (sort_sorted pair_order pair_key xs (sort-IsSorted pair_order pair_key (chunks fs))))

-- Frames that a function leaves as they are.
module _ (g : Frame → Frame) where
  abbrev pub Fixed : Frame → Type 0
  Fixed f = g f ≡ f

  abbrev pub FixedItems : Frames → Type 0
  FixedItems fs = All Fixed (items_of fs)

  abbrev pub FixedPair : Frame × Frame → Type 0
  FixedPair p = Fixed p.0 × Fixed p.1

  abbrev pub FixedPairs : Pairs → Type 0
  FixedPairs ps = All FixedPair (pairs_of ps)

  pub sort_items-FixedItems : (fs : Frames) → FixedItems fs → FixedItems (sort_items fs)
  unfolding sort_items
  sort_items-FixedItems fs h =
      rw (items_of-frames_of (sort bytes_order sort_key (items_of fs)))
        (sort-All bytes_order sort_key Fixed (items_of fs) h)

  pub sort_pairs-FixedPairs : (ps : Pairs) → FixedPairs ps → FixedPairs (sort_pairs ps)
  unfolding sort_pairs
  sort_pairs-FixedPairs ps h =
      rw (pairs_of-pairs_from (sort pair_order pair_key (pairs_of ps)))
        (sort-All pair_order pair_key FixedPair (pairs_of ps) h)

  chunks-FixedPair : (fs : Frames) → FixedItems fs → All FixedPair (chunks fs)
  unfolding chunks items_of
  chunks-FixedPair nil h = tt
  chunks-FixedPair (cons k nil) h = tt
  chunks-FixedPair (cons k (cons v fs)) (hk, (hv, h)) = ((hk, hv), chunks-FixedPair fs h)

  remainder-FixedItems : (fs : Frames) → FixedItems fs → FixedItems (remainder fs)
  unfolding remainder items_of
  remainder-FixedItems nil h = tt
  remainder-FixedItems (cons k nil) h = h
  remainder-FixedItems (cons k (cons v fs)) (hk, (hv, h)) = remainder-FixedItems fs h

  flat-FixedItems :
      (ps : List (Frame × Frame)) (rest : Frames)
      → All FixedPair ps
      → FixedItems rest
      → FixedItems (flat ps rest)
  unfolding flat items_of
  flat-FixedItems [] rest a h = h
  flat-FixedItems (p ∷ ps) rest ((hk, hv), a) h = (hk, (hv, flat-FixedItems ps rest a h))

  pub sort_chunks-FixedItems : (fs : Frames) → FixedItems fs → FixedItems (sort_chunks fs)
  unfolding sort_chunks
  sort_chunks-FixedItems fs h =
      flat-FixedItems (sort pair_order pair_key (chunks fs)) (remainder fs)
        (sort-All pair_order pair_key FixedPair (chunks fs) (chunks-FixedPair fs h))
        (remainder-FixedItems fs h)
