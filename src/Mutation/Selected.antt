-- ===== src/Mutation/Selected.antt =====
-- A visit hits exactly when the remaining weight lies below the weight of what it visits.
use evilresp.Base.Bytes.{Bytes, codes}
use evilresp.Base.{
  ℕ, suc, ◌+◌, ◌-◌, ◌<◌, ◌≡◌, ◌++◌, ◌∙◌, ◌==◌, some, arith, inl, inr, Bool, true, false, ltb,
  Bool-cases,
}
use evilresp.Evil.{MutationKind}
use evilresp.Mutation.{
  SelectConfig, eligible, weight, own_weight, children_weight, frames_weight, pairs_weight,
  eligible_weight, Visit, hit, missed, enter, visit, child, below, in_frames, in_pairs,
  mutate_selected, select_weight,
}
use evilresp.Random.{Random}
use evilresp.Base.Options.{of_some}
use evilresp.Resp.Frame.{
  Frame, Frames, Pairs, nil, cons, end, pair, array, map, set, push, attribute,
}

module _ (c : SelectConfig) (one : Frame → Frame × MutationKind) where
  -- A visit of the weight `total` with `r` remaining.
  abbrev pub Follows : {A : Type 0} → ℕ → ℕ → Visit c A → Type 0
  Follows total r (hit a m) = r < total
  Follows total r (missed r') = r ≡ total + r'

  passed-Follows :
      {A : Type 0} (t u r r' : ℕ) (v : Visit c A)
      → r ≡ t + r'
      → Follows u r' v
      → Follows (t + u) r v
  passed-Follows t u r r' (hit a m) e h = omega (arith, e, h)
  passed-Follows t u r r' (missed rest) e h = omega (arith, e, h)

  visit-Follows :
      {A B : Type 0} (t u r : ℕ) (v : Visit c A) (rebuilt : A → B) (next : ℕ → Visit c B)
      → Follows t r v
      → ((r' : ℕ) → Follows u r' (next r'))
      → Follows (t + u) r (visit c one v rebuilt next)
  visit-Follows t u r (hit a m) rebuilt next h k = omega arith
  visit-Follows t u r (missed r') rebuilt next h k = passed-Follows t u r r' (next r') h (k r')

  enter-Follows :
      (path : Bytes) (depth r t : ℕ) (f : Frame) (go : ℕ → Visit c Frame)
      → ((r' : ℕ) → Follows t r' (go r'))
      → Follows (own_weight c f depth + t) r (enter c one path depth r f go)
  unfolding own_weight enter
  enter-Follows path depth r t f go k = elim (Bool-cases (eligible f c)) [
    | inr skipped ↦ rw skipped (passed-Follows 0 t r r (go r) (omega arith) (k r))
    | inl chosen ↦ elim (Bool-cases (ltb r (weight c.depth depth))) [
      | inl here ↦ rw (chosen, here) (ground arith)
      | inr later ↦
          rw (chosen, later)
            (passed-Follows (weight c.depth depth) t r (r - weight c.depth depth)
              (go (r - weight c.depth depth)) (ground arith) (k (r - weight c.depth depth)))
    ]
  ]

  rebuilt-Follows :
      {A B : Type 0} (t r : ℕ) (v : Visit c A) (rebuilt : A → B)
      → Follows t r v
      → Follows t r (visit c one v rebuilt missed)
  rebuilt-Follows t r (hit a m) rebuilt h = h
  rebuilt-Follows t r (missed rest) rebuilt h = h

  mutual
    unfolding below children_weight

    below-Follows :
        (path : Bytes) (depth : ℕ) (f : Frame) (r : ℕ)
        → Follows (children_weight c f depth) r (below c one path depth f r)
    below-Follows path depth (array items) r =
        rebuilt-Follows _ r (in_frames c one path 0 (suc depth) items r) array
          (in_frames-Follows path 0 (suc depth) items r)
    below-Follows path depth (set items) r =
        rebuilt-Follows _ r (in_frames c one path 0 (suc depth) items r) set
          (in_frames-Follows path 0 (suc depth) items r)
    below-Follows path depth (push items) r =
        rebuilt-Follows _ r (in_frames c one path 0 (suc depth) items r) push
          (in_frames-Follows path 0 (suc depth) items r)
    below-Follows path depth (map items) r =
        rebuilt-Follows _ r (in_pairs c one path 0 (suc depth) items r) map
          (in_pairs-Follows path 0 (suc depth) items r)
    below-Follows path depth (attribute items) r =
        rebuilt-Follows _ r (in_pairs c one path 0 (suc depth) items r) attribute
          (in_pairs-Follows path 0 (suc depth) items r)
    below-Follows path depth _ r = omega arith

    in_frames-Follows :
        (path : Bytes) (i depth : ℕ) (fs : Frames) (r : ℕ)
        → Follows (frames_weight c fs depth) r (in_frames c one path i depth fs r)
    in_frames-Follows path i depth nil r = omega arith
    in_frames-Follows path i depth (cons f fs) r =
        visit-Follows (own_weight c f depth + children_weight c f depth) (frames_weight c fs depth)
          r (enter c one (child path i) depth r f (below c one (child path i) depth f))
          (λ g. cons g fs) _
          (enter-Follows (child path i) depth r (children_weight c f depth) f
            (below c one (child path i) depth f) (λ r'. below-Follows (child path i) depth f r'))
          (λ r'.
            rebuilt-Follows (frames_weight c fs depth) r' _ (cons f)
              (in_frames-Follows path (suc i) depth fs r'))

    in_pairs-Follows :
        (path : Bytes) (i depth : ℕ) (ps : Pairs) (r : ℕ)
        → Follows (pairs_weight c ps depth) r (in_pairs c one path i depth ps r)
    in_pairs-Follows path i depth end r = omega arith
    in_pairs-Follows path i depth (pair k v ps) r =
        let at_key = child path i ++ codes ".key" in
        let at_value = child path i ++ codes ".value" in
        visit-Follows (own_weight c k depth + children_weight c k depth)
          (own_weight c v depth + children_weight c v depth + pairs_weight c ps depth) r
          (enter c one at_key depth r k (below c one at_key depth k)) (λ g. pair g v ps) _
          (enter-Follows at_key depth r (children_weight c k depth) k (below c one at_key depth k)
            (λ r'. below-Follows at_key depth k r'))
          (λ r'.
            visit-Follows (own_weight c v depth + children_weight c v depth)
              (pairs_weight c ps depth) r'
              (enter c one at_value depth r' v (below c one at_value depth v)) (λ g. pair k g ps) _
              (enter-Follows at_value depth r' (children_weight c v depth) v
                (below c one at_value depth v) (λ r''. below-Follows at_value depth v r''))
              (λ r''.
                rebuilt-Follows (pairs_weight c ps depth) r'' _ (pair k v)
                  (in_pairs-Follows path (suc i) depth ps r'')))

  mutate_selected-Follows :
      (frame : Frame) (remaining : ℕ)
      → Follows (eligible_weight c frame 0) remaining (mutate_selected c one frame remaining)
  unfolding mutate_selected eligible_weight
  mutate_selected-Follows frame remaining =
      enter-Follows (codes "root") 0 remaining (children_weight c frame 0) frame
        (below c one (codes "root") 0 frame) (λ r. below-Follows (codes "root") 0 frame r)

  abbrev pub is_hit : {A : Type 0} → Visit c A → Bool
  is_hit (hit a m) = true
  is_hit (missed r) = false

  hit-lt : {A : Type 0} (t r : ℕ) (v : Visit c A) → Follows t r v → is_hit v ≡ ltb r t
  hit-lt t r (hit a m) h = ground (arith, h)
  hit-lt t r (missed rest) h = ground (arith, h)

  -- Whatever the reply, its one mutation is carried out exactly when the drawn offset lies below the
  -- total weight of the eligible frames: no offset within the weight is lost between the frames.
  pub mutate_selected-eligible_weight :
      (frame : Frame) (remaining : ℕ)
      → is_hit (mutate_selected c one frame remaining) ≡ ltb remaining (eligible_weight c frame 0)
  mutate_selected-eligible_weight frame remaining =
      hit-lt (eligible_weight c frame 0) remaining _ (mutate_selected-Follows frame remaining)

-- Whenever an offset is drawn for a reply, the visit with that offset mutates one of its frames.
pub select_weight-is_hit :
    (r : Random) (c : SelectConfig) (one : Frame → Frame × MutationKind) (frame : Frame) (g : r.Gen)
    {remaining : ℕ} {g' : r.Gen}
    → select_weight r c frame g ≡ some (remaining, g')
    → is_hit c one (mutate_selected c one frame remaining) ≡ true
unfolding select_weight
select_weight-is_hit r c one frame g {remaining} {g'} h =
    let total = eligible_weight c frame 0 in
    elim (Bool-cases (total == 0)) [
      | inl empty ↦ cc (rw empty at h)
      | inr weighty ↦
          let small : (r.gen_range 0 total g).0 < total =
            (r.gen_range_bounds 0 total g (ground (arith, weighty))).1 in
          let below_total : remaining < total =
            of_some (λ d. d.0 < total) (rw weighty at h) small in
          mutate_selected-eligible_weight c one frame remaining ∙ ground (arith, below_total)
    ]
