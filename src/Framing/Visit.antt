-- ===== src/Framing/Visit.antt =====
-- src/framing.rs: `visit`, as the list of what the visitor is called with, in the order of the calls.
use evilresp.Base.Bytes.{Bytes, codes}
use evilresp.Base.{ℕ, suc, ◌+◌, ◌≡◌, refl, arith, List, [], ◌∷◌, ◌++◌, length, length-append}
use evilresp.Mutation.{child}
use evilresp.Resp.Frame.{
  Frame, Frames, Pairs, nil, cons, end, pair, array, map, set, push, attribute,
}

pub record Visited : Type 0 where
  pub frame : Frame
  pub path : Bytes
  pub depth : ℕ

-- The frames below a frame, and those of vectors from index `i` on.
unfoldable mutual
  pub visit_below : Bytes → ℕ → Frame → List Visited
  visit_below path depth (array items) = visit_items path 0 (suc depth) items
  visit_below path depth (set items) = visit_items path 0 (suc depth) items
  visit_below path depth (push items) = visit_items path 0 (suc depth) items
  visit_below path depth (map items) = visit_pairs path 0 (suc depth) items
  visit_below path depth (attribute items) = visit_pairs path 0 (suc depth) items
  visit_below path depth _ = []

  pub visit_items : Bytes → ℕ → ℕ → Frames → List Visited
  visit_items path i depth nil = []
  visit_items path i depth (cons f fs) =
      record { frame = f; path = child path i; depth = depth }
      ∷ (visit_below (child path i) depth f ++ visit_items path (suc i) depth fs)

  pub visit_pairs : Bytes → ℕ → ℕ → Pairs → List Visited
  visit_pairs path i depth end = []
  visit_pairs path i depth (pair k v ps) =
      let at_key = child path i ++ codes ".key" in
      let at_value = child path i ++ codes ".value" in
      record { frame = k; path = at_key; depth = depth }
      ∷ (visit_below at_key depth k
          ++ record { frame = v; path = at_value; depth = depth }
            ∷ (visit_below at_value depth v ++ visit_pairs path (suc i) depth ps))

unfoldable pub visit : Bytes → ℕ → Frame → List Visited
unfolding visit_below
visit path depth f = record { frame = f; path = path; depth = depth } ∷ visit_below path depth f

-- The number of frames below a frame and in vectors.
unfoldable mutual
  pub size_below : Frame → ℕ
  size_below (array items) = size_items items
  size_below (set items) = size_items items
  size_below (push items) = size_items items
  size_below (map items) = size_pairs items
  size_below (attribute items) = size_pairs items
  size_below _ = 0

  pub size_items : Frames → ℕ
  size_items nil = 0
  size_items (cons f fs) = suc (size_below f + size_items fs)

  pub size_pairs : Pairs → ℕ
  size_pairs end = 0
  size_pairs (pair k v ps) = suc (size_below k + suc (size_below v + size_pairs ps))

mutual
  unfolding visit_below size_below

  pub length-visit_below :
      (path : Bytes) (depth : ℕ) (f : Frame) → length (visit_below path depth f) ≡ size_below f
  length-visit_below path depth (array items) = length-visit_items path 0 (suc depth) items
  length-visit_below path depth (set items) = length-visit_items path 0 (suc depth) items
  length-visit_below path depth (push items) = length-visit_items path 0 (suc depth) items
  length-visit_below path depth (map items) = length-visit_pairs path 0 (suc depth) items
  length-visit_below path depth (attribute items) = length-visit_pairs path 0 (suc depth) items
  length-visit_below path depth _ = refl

  pub length-visit_items :
      (path : Bytes) (i depth : ℕ) (fs : Frames)
      → length (visit_items path i depth fs) ≡ size_items fs
  length-visit_items path i depth nil = refl
  length-visit_items path i depth (cons f fs) = omega (
    arith,
    length-append (visit_below (child path i) depth f) (visit_items path (suc i) depth fs),
    length-visit_below (child path i) depth f,
    length-visit_items path (suc i) depth fs,
  )

  pub length-visit_pairs :
      (path : Bytes) (i depth : ℕ) (ps : Pairs)
      → length (visit_pairs path i depth ps) ≡ size_pairs ps
  length-visit_pairs path i depth end = refl
  length-visit_pairs path i depth (pair k v ps) =
      let at_key = child path i ++ codes ".key" in
      let at_value = child path i ++ codes ".value" in
      let last = visit_below at_value depth v ++ visit_pairs path (suc i) depth ps in
      let value : Visited = record { frame = v; path = at_value; depth = depth } in
      omega (
        arith,
        length-append (visit_below at_key depth k) (value ∷ last),
        length-append (visit_below at_value depth v) (visit_pairs path (suc i) depth ps),
        length-visit_below at_key depth k,
        length-visit_below at_value depth v,
        length-visit_pairs path (suc i) depth ps,
      )
