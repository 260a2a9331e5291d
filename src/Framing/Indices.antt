-- ===== src/Framing/Indices.antt =====
-- The indices that the encoder counts, and where its output depends on the callback.
use evilresp.Base.Bytes.{Bytes}
use evilresp.Base.{ℕ, suc, ◌+◌, ◌≤◌, ◌<◌, ◌≡◌, ◌≢◌, refl, arith, none, some}
use evilresp.Framing.Visit.{size_below, size_items, size_pairs}
use evilresp.Resp.Encode.{Header, encode_into, encode_items, encode_pairs, replace_at}
use evilresp.Resp.Frame.{
  Frame, Frames, Pairs, nil, cons, end, pair, bulk_string, array, null_array, bulk_error,
  verbatim_string, map, set, push, attribute,
}

mutual
  unfolding encode_into size_below

  pub encode_into-index :
      (h : Header) (f : Frame) (i : ℕ) → (encode_into h f i).1 ≡ suc (i + size_below f)
  encode_into-index h (array items) i = omega (arith, encode_items-index h items (suc i))
  encode_into-index h (set items) i = omega (arith, encode_items-index h items (suc i))
  encode_into-index h (push items) i = omega (arith, encode_items-index h items (suc i))
  encode_into-index h (map items) i = omega (arith, encode_pairs-index h items (suc i))
  encode_into-index h (attribute items) i = omega (arith, encode_pairs-index h items (suc i))
  encode_into-index h (bulk_string none) i = omega arith
  encode_into-index h (bulk_string (some bytes)) i = omega arith
  encode_into-index h _ i = omega arith

  pub encode_items-index :
      (h : Header) (fs : Frames) (i : ℕ) → (encode_items h fs i).1 ≡ i + size_items fs
  encode_items-index h nil i = omega arith
  encode_items-index h (cons f fs) i =
      omega (arith, encode_into-index h f i, encode_items-index h fs (encode_into h f i).1)

  pub encode_pairs-index :
      (h : Header) (ps : Pairs) (i : ℕ) → (encode_pairs h ps i).1 ≡ i + size_pairs ps
  encode_pairs-index h end i = omega arith
  encode_pairs-index h (pair k v ps) i =
      let j = (encode_into h k i).1 in
      let l = (encode_into h v j).1 in
      omega (arith, encode_into-index h k i, encode_into-index h v j, encode_pairs-index h ps l)

-- Two callbacks answer alike from `i` on, below `j`.
abbrev pub Agree : Header → Header → ℕ → ℕ → Type 0
Agree h h' i j = (k : ℕ) → i ≤ k → k < j → h k ≡ h' k

module _ (h h' : Header) where
  narrow : (i j i' j' : ℕ) → Agree h h' i j → i ≤ i' → j' ≤ j → Agree h h' i' j'
  narrow i j i' j' a low high k p q = a k (omega arith) (omega arith)

  mutual
    unfolding encode_into size_below

    pub encode_into-Agree :
        (f : Frame) (i : ℕ)
        → Agree h h' i (suc (i + size_below f))
        → encode_into h f i ≡ encode_into h' f i
    encode_into-Agree (bulk_string (some bytes)) i a = rw (a i (omega arith) (omega arith)) refl
    encode_into-Agree (bulk_string none) i a = rw (a i (omega arith) (omega arith)) refl
    encode_into-Agree null_array i a = rw (a i (omega arith) (omega arith)) refl
    encode_into-Agree (bulk_error bytes) i a = rw (a i (omega arith) (omega arith)) refl
    encode_into-Agree (verbatim_string bytes) i a = rw (a i (omega arith) (omega arith)) refl
    encode_into-Agree (array items) i a =
        rw
          (
            a i (omega arith) (omega arith),
            encode_items-Agree items (suc i) (narrow i _ (suc i) _ a (omega arith) (omega arith)),
          )
          refl
    encode_into-Agree (set items) i a =
        rw
          (
            a i (omega arith) (omega arith),
            encode_items-Agree items (suc i) (narrow i _ (suc i) _ a (omega arith) (omega arith)),
          )
          refl
    encode_into-Agree (push items) i a =
        rw
          (
            a i (omega arith) (omega arith),
            encode_items-Agree items (suc i) (narrow i _ (suc i) _ a (omega arith) (omega arith)),
          )
          refl
    encode_into-Agree (map items) i a =
        rw
          (
            a i (omega arith) (omega arith),
            encode_pairs-Agree items (suc i) (narrow i _ (suc i) _ a (omega arith) (omega arith)),
          )
          refl
    encode_into-Agree (attribute items) i a =
        rw
          (
            a i (omega arith) (omega arith),
            encode_pairs-Agree items (suc i) (narrow i _ (suc i) _ a (omega arith) (omega arith)),
          )
          refl
    encode_into-Agree _ i a = refl

    pub encode_items-Agree :
        (fs : Frames) (i : ℕ)
        → Agree h h' i (i + size_items fs)
        → encode_items h fs i ≡ encode_items h' fs i
    encode_items-Agree nil i a = refl
    encode_items-Agree (cons f fs) i a =
        let j = suc (i + size_below f) in
        rw
          (
            encode_into-Agree f i (narrow i _ i _ a (omega arith) (omega arith)),
            encode_into-index h' f i,
            encode_items-Agree fs j (narrow i _ j _ a (omega arith) (omega arith)),
          )
          refl

    pub encode_pairs-Agree :
        (ps : Pairs) (i : ℕ)
        → Agree h h' i (i + size_pairs ps)
        → encode_pairs h ps i ≡ encode_pairs h' ps i
    encode_pairs-Agree end i a = refl
    encode_pairs-Agree (pair k v ps) i a =
        let j = suc (i + size_below k) in
        let l = suc (j + size_below v) in
        rw
          (
            encode_into-Agree k i (narrow i _ i _ a (omega arith) (omega arith)),
            encode_into-index h' k i,
            encode_into-Agree v j (narrow i _ j _ a (omega arith) (omega arith)),
            encode_into-index h' v j,
            encode_pairs-Agree ps l (narrow i _ l _ a (omega arith) (omega arith)),
          )
          refl

-- A replacement at an index out of range changes nothing.
pub replace_at-none : (t : ℕ) (r : Bytes) (k : ℕ) → k ≢ t → replace_at t r k ≡ none
replace_at-none t r k h = ground (arith, h)

pub replace_at-some : (t : ℕ) (r : Bytes) → replace_at t r t ≡ some r
replace_at-some t r = ground arith
