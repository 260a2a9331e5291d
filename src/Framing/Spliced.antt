-- ===== src/Framing/Spliced.antt =====
-- `encode_with_length` changes the chosen length header and no other byte.
use evilresp.Base.Bytes.{Bytes, codes}
use evilresp.Base.Decimal.{decimal, decimal_int}
use evilresp.Base.Int.{ℤ}
use evilresp.Base.Options.{of_some}
use evilresp.Base.{
  ℕ, zero, suc, ◌+◌, ◌-◌, ◌<◌, ◌≡◌, [], refl, sym, ◌∙◌, arith, ap, inl, inr, List, ◌++◌, some, ltb,
  length, get_elem?, get_elem?-append_left, get_elem?-append_right, Bool-cases,
}
use evilresp.Framing.Indices.{
  encode_into-index, encode_into-Agree, encode_items-Agree, encode_pairs-Agree, replace_at-none,
}
use evilresp.Framing.Visit.{
  Visited, visit_below, visit_items, visit_pairs, visit, size_below, size_items, size_pairs,
  length-visit_below,
}
use evilresp.Mutation.{child}
use evilresp.Framing.Ahead.{from_itself, then_ahead, ahead_below, ahead_items, ahead_pairs, ahead}
use evilresp.Resp.Wire.{wire, encode_into-wire}
use evilresp.Framing.Splice.{Splice, Splice-left, Splice-right}
use evilresp.Framing.Own.{silent, early, At, own-Splice}
use mathlib.Core.Path.{subst}
use evilresp.Resp.Encode.{
  Header, encode_into, encode_items, encode_pairs, no_header, replace_at, push_line, unwrap_or,
  declared_length, encode, encode_with_length,
}
use evilresp.Resp.Frame.{
  Frame, Frames, Pairs, nil, cons, end, pair, array, map, set, push, attribute, count, count_pairs,
}

module _ (new : Bytes) where
  module _ (v : Visited) (z : ℤ) (d : declared_length v.frame ≡ some z) where
    -- What encodes the rest of a vector from an index on.
    abbrev Tail : Type 0
    Tail = Header → ℕ → Bytes

    abbrev own : Bytes
    own = wire v.frame

    abbrev AtTail : Bytes → Tail → ℕ → ℕ → Type 0
    AtTail before tail i t =
        Splice before own (decimal_int z) new (tail no_header i) (tail (replace_at t new) i)

    abbrev items_tail : Frames → Tail
    items_tail fs h i = (encode_items h fs i).0

    abbrev pairs_tail : Pairs → Tail
    pairs_tail ps h i = (encode_pairs h ps i).0

    abbrev then_tail : Frame → Tail → Tail
    then_tail f tail h i = (encode_into h f i).0 ++ tail h (encode_into h f i).1

    -- The target is the frame or below it.
    visit-Splice :
        (f : Frame) (path : Bytes) (depth i n t : ℕ)
        → ((m : ℕ)
            → get_elem? (visit_below path depth f) m ≡ some v
            → t ≡ suc (i + m)
            → At new (ahead_below f m) own f i t z)
        → get_elem? (visit path depth f) n ≡ some v
        → t ≡ i + n
        → At new (from_itself (ahead_below f) n) own f i t z
    unfolding visit
    visit-Splice f path depth i zero t below g e =
        let here : i ≡ t = omega (arith, e) in
        let same : v.frame ≡ f = of_some (λ w. w.frame ≡ f) g refl in
        let whole : (encode_into no_header f i).0 ≡ own =
          encode_into-wire f i ∙ ap wire (sym same) in
        subst (λ k. At new [] own f i k z) here
          (subst (λ w. At new [] w f i i z) whole
            (own-Splice new f i (ap declared_length (sym same) ∙ d)))
    visit-Splice f path depth i (suc m) t below g e = below m g (omega (arith, e))

    -- A tail is silent about indices before it.
    abbrev IsSilent : Tail → Type 0
    IsSilent tail = (t i : ℕ) → t < i → tail (replace_at t new) i ≡ tail no_header i

    items_tail-IsSilent : (fs : Frames) → IsSilent (items_tail fs)
    items_tail-IsSilent fs t i h =
        ap (λ p. p.0)
          (encode_items-Agree (replace_at t new) no_header fs i
            (silent new t i (i + size_items fs) h))

    pairs_tail-IsSilent : (ps : Pairs) → IsSilent (pairs_tail ps)
    pairs_tail-IsSilent ps t i h =
        ap (λ p. p.0)
          (encode_pairs-Agree (replace_at t new) no_header ps i
            (silent new t i (i + size_pairs ps) h))

    then_tail-IsSilent : (f : Frame) (tail : Tail) → IsSilent tail → IsSilent (then_tail f tail)
    then_tail-IsSilent f tail quiet t i h =
        let j = suc (i + size_below f) in
        let front = encode_into-Agree (replace_at t new) no_header f i (silent new t i j h) in
        rw (front, encode_into-index no_header f i, quiet t j (omega (arith, h))) refl

    -- The target lies in the first of two parts, or in the second.
    then-Splice :
        (f : Frame) (tail : Tail) (behind : ℕ → Bytes) (i n t : ℕ) (xs ys : List Visited)
        → IsSilent tail
        → length xs ≡ suc (size_below f)
        → (get_elem? xs n ≡ some v → At new (from_itself (ahead_below f) n) own f i t z)
        → ((j m : ℕ) → get_elem? ys m ≡ some v → t ≡ j + m → AtTail (behind m) tail j t)
        → get_elem? (xs ++ ys) n ≡ some v
        → t ≡ i + n
        → AtTail (then_ahead f (ahead_below f) behind n) (then_tail f tail) i t
    then-Splice f tail behind i n t xs ys quiet len first rest g e =
        let j = suc (i + size_below f) in
        let old = decimal_int z in
        elim (Bool-cases (ltb n (length xs))) [
          | inl inside ↦
              rw
                (
                  rw len at inside,
                  encode_into-index (replace_at t new) f i,
                  encode_into-index no_header f i,
                  quiet t j (ground (arith, len, inside, e)),
                )
                (Splice-right own old new (from_itself (ahead_below f) n) (tail no_header j) _ _
                  (first (sym (get_elem?-append_left xs ys n (ground (arith, inside))) ∙ g)))
          | inr beyond ↦
              let front =
                encode_into-Agree (replace_at t new) no_header f i
                  (early new t i j (ground (arith, len, beyond, e))) in
              let m = n - suc (size_below f) in
              rw (rw len at beyond, front, encode_into-index no_header f i, encode_into-wire f i)
                (Splice-left own old new (behind m) (wire f) _ _ (
                  rest j m
                    (ap (λ k. get_elem? ys (n - k)) (sym len)
                      ∙ (sym (get_elem?-append_right xs ys n (ground (arith, beyond))) ∙ g))
                    (ground (arith, len, beyond, e))))
        ]

    length-visit :
        (f : Frame) (path : Bytes) (depth : ℕ) → length (visit path depth f) ≡ suc (size_below f)
    unfolding visit
    length-visit f path depth = ap suc (length-visit_below path depth f)

    -- A header line that the callback leaves alone, with a body that holds the target.
    body-Splice :
        (prefix i t : ℕ) (old before : Bytes) (tail : Tail)
        → i < t
        → AtTail before tail (suc i) t
        → Splice
            (push_line prefix old ++ before)
            own
            (decimal_int z)
            new
            (push_line prefix old ++ tail no_header (suc i))
            (push_line prefix (unwrap_or (replace_at t new i) old)
              ++ tail (replace_at t new) (suc i))
    body-Splice prefix i t old before tail h s =
        let quiet = replace_at-none t new i (λ e. omega (arith, e, h)) in
        rw quiet (Splice-left own (decimal_int z) new before (push_line prefix old) _ _ s)

    mutual
      unfolding encode_into visit_below visit ahead_below

      below-Splice :
          (f : Frame) (path : Bytes) (depth i m t : ℕ)
          → get_elem? (visit_below path depth f) m ≡ some v
          → t ≡ suc (i + m)
          → At new (ahead_below f m) own f i t z
      below-Splice (array items) path depth i m t g e =
          body-Splice b'*' i t (decimal (count items)) (ahead_items items m) (items_tail items)
            (omega (arith, e))
            (items-Splice items path 0 (suc depth) (suc i) m t g (omega (arith, e)))
      below-Splice (set items) path depth i m t g e =
          body-Splice b'~' i t (decimal (count items)) (ahead_items items m) (items_tail items)
            (omega (arith, e))
            (items-Splice items path 0 (suc depth) (suc i) m t g (omega (arith, e)))
      below-Splice (push items) path depth i m t g e =
          body-Splice b'>' i t (decimal (count items)) (ahead_items items m) (items_tail items)
            (omega (arith, e))
            (items-Splice items path 0 (suc depth) (suc i) m t g (omega (arith, e)))
      below-Splice (map items) path depth i m t g e =
          body-Splice b'%' i t (decimal (count_pairs items)) (ahead_pairs items m)
            (pairs_tail items) (omega (arith, e))
            (pairs-Splice items path 0 (suc depth) (suc i) m t g (omega (arith, e)))
      below-Splice (attribute items) path depth i m t g e =
          body-Splice b'|' i t (decimal (count_pairs items)) (ahead_pairs items m)
            (pairs_tail items) (omega (arith, e))
            (pairs-Splice items path 0 (suc depth) (suc i) m t g (omega (arith, e)))
      below-Splice _ path depth i m t g e = cc

      items-Splice :
          (fs : Frames) (path : Bytes) (k depth i n t : ℕ)
          → get_elem? (visit_items path k depth fs) n ≡ some v
          → t ≡ i + n
          → AtTail (ahead_items fs n) (items_tail fs) i t
      items-Splice nil path k depth i n t g e = cc
      items-Splice (cons f fs) path k depth i n t g e =
          then-Splice f (items_tail fs) (ahead_items fs) i n t (visit (child path k) depth f)
            (visit_items path (suc k) depth fs) (items_tail-IsSilent fs)
            (length-visit f (child path k) depth)
            (λ g'.
              visit-Splice f (child path k) depth i n t
                (λ m g'' e'. below-Splice f (child path k) depth i m t g'' e') g' e)
            (λ j m g' e'. items-Splice fs path (suc k) depth j m t g' e') g e

      pairs-Splice :
          (ps : Pairs) (path : Bytes) (k depth i n t : ℕ)
          → get_elem? (visit_pairs path k depth ps) n ≡ some v
          → t ≡ i + n
          → AtTail (ahead_pairs ps n) (pairs_tail ps) i t
      pairs-Splice end path k depth i n t g e = cc
      pairs-Splice (pair key value ps) path k depth i n t g e =
          let at_key = child path k ++ codes ".key" in
          let at_value = child path k ++ codes ".value" in
          let rest = visit_pairs path (suc k) depth ps in
          then-Splice key (then_tail value (pairs_tail ps))
            (then_ahead value (ahead_below value) (ahead_pairs ps)) i n t (visit at_key depth key)
            (visit at_value depth value ++ rest)
            (then_tail-IsSilent value (pairs_tail ps) (pairs_tail-IsSilent ps))
            (length-visit key at_key depth)
            (λ g'.
              visit-Splice key at_key depth i n t
                (λ m g'' e'. below-Splice key at_key depth i m t g'' e') g' e)
            (λ j m g' e'.
              then-Splice value (pairs_tail ps) (ahead_pairs ps) j m t (visit at_value depth value)
                rest (pairs_tail-IsSilent ps) (length-visit value at_value depth)
                (λ h.
                  visit-Splice value at_value depth j m t
                    (λ m' h' e''. below-Splice value at_value depth j m' t h' e'') h e')
                (λ j' m' h e''. pairs-Splice ps path (suc k) depth j' m' t h e'') g' e')
            g e

    -- Replacing the length of the `n`-th frame that is visited changes the length in the header of
    -- this frame, the one behind the bytes ahead of the `n`-th frame, and no other byte of the
    -- encoding, however deep the frame stands; what stood there is the encoding of this frame.
    pub encode_with_length-Splice :
        (f : Frame) (path : Bytes) (n : ℕ)
        → get_elem? (visit path 0 f) n ≡ some v
        → Splice
            (ahead f n)
            (encode v.frame)
            (decimal_int z)
            new
            (encode f)
            (encode_with_length f n new)
    unfolding encode encode_with_length ahead
    encode_with_length-Splice f path n g =
        rw (encode_into-wire v.frame 0)
          (visit-Splice f path 0 0 n n (λ m g' e. below-Splice f path 0 0 m n g' e) g (omega arith))
