-- ===== src/Mutation/Edited.antt =====
-- One frame in the place of another, at a path of a reply, and what the selection does.
use evilresp.Base.Bytes.{Bytes, codes}
use evilresp.Base.{ℕ, suc, ◌-◌, ◌≡◌, refl, inl, inr, true, ◌++◌, ltb, Bool-cases}
use evilresp.Evil.{MutationKind}
use evilresp.Mutation.{
  SelectConfig, child, eligible, weight, Visit, hit, missed, mutated, visit, enter, below,
  in_frames, in_pairs, mutate_selected,
}
use evilresp.Resp.Frame.{
  Frame, Frames, Pairs, nil, cons, end, pair, array, map, set, push, attribute,
}

module _ (at : Bytes) (old new : Frame) where
  -- `Edited path f g`: `f` stands at `path`, and `g` is `f` with `new` in the place of the frame `old`
  -- at the path `at`. The items of a vector are numbered from `i` on.
  mutual
    pub data Edited : Bytes → Frame → Frame → Type 0 where
      here : Edited at old new
      in_array :
          {path : Bytes} {fs gs : Frames}
          → EditedItems path 0 fs gs
          → Edited path (array fs) (array gs)
      in_set :
          {path : Bytes} {fs gs : Frames} → EditedItems path 0 fs gs → Edited path (set fs) (set gs)
      in_push :
          {path : Bytes} {fs gs : Frames}
          → EditedItems path 0 fs gs
          → Edited path (push fs) (push gs)
      in_map :
          {path : Bytes} {ps qs : Pairs} → EditedPairs path 0 ps qs → Edited path (map ps) (map qs)
      in_attribute :
          {path : Bytes} {ps qs : Pairs}
          → EditedPairs path 0 ps qs
          → Edited path (attribute ps) (attribute qs)

    pub data EditedItems : Bytes → ℕ → Frames → Frames → Type 0 where
      first :
          {path : Bytes} {i : ℕ} {f g : Frame} (fs : Frames)
          → Edited (child path i) f g
          → EditedItems path i (cons f fs) (cons g fs)
      later :
          {path : Bytes} {i : ℕ} (f : Frame) {fs gs : Frames}
          → EditedItems path (suc i) fs gs
          → EditedItems path i (cons f fs) (cons f gs)

    pub data EditedPairs : Bytes → ℕ → Pairs → Pairs → Type 0 where
      key :
          {path : Bytes} {i : ℕ} {k l : Frame} (v : Frame) (ps : Pairs)
          → Edited (child path i ++ codes ".key") k l
          → EditedPairs path i (pair k v ps) (pair l v ps)
      value :
          {path : Bytes} {i : ℕ} (k : Frame) {v w : Frame} (ps : Pairs)
          → Edited (child path i ++ codes ".value") v w
          → EditedPairs path i (pair k v ps) (pair k w ps)
      later_pair :
          {path : Bytes} {i : ℕ} (k v : Frame) {ps qs : Pairs}
          → EditedPairs path (suc i) ps qs
          → EditedPairs path i (pair k v ps) (pair k v qs)

module _ (c : SelectConfig) (one : Frame → Frame × MutationKind) where
  -- A hit reports the mutation of an eligible frame, at a path where `E` holds.
  abbrev pub Change : {A : Type 0} → (Bytes → Frame → A → Type 0) → Visit c A → Type 0
  Change E (hit a m) =
      (old : Frame) × (eligible old c ≡ true) × (m ≡ mutated c one m.path old) × E m.path old a
  Change E (missed remaining) = Unit

  abbrev pub OfFrame : Bytes → Frame → Bytes → Frame → Frame → Type 0
  OfFrame path f at old g = Edited at old (one old).0 path f g

  abbrev OfItems : Bytes → ℕ → Frames → Bytes → Frame → Frames → Type 0
  OfItems path i fs at old gs = EditedItems at old (one old).0 path i fs gs

  abbrev OfPairs : Bytes → ℕ → Pairs → Bytes → Frame → Pairs → Type 0
  OfPairs path i ps at old qs = EditedPairs at old (one old).0 path i ps qs

  visit-Change :
      {A B : Type 0} (E : Bytes → Frame → A → Type 0) (E' : Bytes → Frame → B → Type 0)
      (v : Visit c A) (rebuilt : A → B) (next : ℕ → Visit c B)
      → Change E v
      → ((at : Bytes) (old : Frame) (a : A) → E at old a → E' at old (rebuilt a))
      → ((r : ℕ) → Change E' (next r))
      → Change E' (visit c one v rebuilt next)
  visit-Change E E' (hit a m) rebuilt next (old, can, same, e) built rest =
      (old, can, same, built m.path old a e)
  visit-Change E E' (missed r) rebuilt next h built rest = rest r

  enter-Change :
      (path : Bytes) (depth r : ℕ) (f : Frame) (below : ℕ → Visit c Frame)
      → ((k : ℕ) → Change (OfFrame path f) (below k))
      → Change (OfFrame path f) (enter c one path depth r f below)
  unfolding enter
  enter-Change path depth r f below rest = elim (Bool-cases (eligible f c)) [
    | inr passed ↦ rw passed (rest r)
    | inl can ↦ elim (Bool-cases (ltb r (weight c.depth depth))) [
      | inl inside ↦ rw (can, inside) (f, can, refl, here)
      | inr beyond ↦ rw (can, beyond) (rest (r - weight c.depth depth))
    ]
  ]

  mutual
    unfolding below

    below-Change :
        (path : Bytes) (depth : ℕ) (f : Frame) (r : ℕ)
        → Change (OfFrame path f) (below c one path depth f r)
    below-Change path depth (array fs) r =
        visit-Change (OfItems path 0 fs) (OfFrame path (array fs)) _ array missed
          (in_frames-Change path 0 (suc depth) fs r) (λ at old gs e. in_array e) (λ k. tt)
    below-Change path depth (set fs) r =
        visit-Change (OfItems path 0 fs) (OfFrame path (set fs)) _ set missed
          (in_frames-Change path 0 (suc depth) fs r) (λ at old gs e. in_set e) (λ k. tt)
    below-Change path depth (push fs) r =
        visit-Change (OfItems path 0 fs) (OfFrame path (push fs)) _ push missed
          (in_frames-Change path 0 (suc depth) fs r) (λ at old gs e. in_push e) (λ k. tt)
    below-Change path depth (map ps) r =
        visit-Change (OfPairs path 0 ps) (OfFrame path (map ps)) _ map missed
          (in_pairs-Change path 0 (suc depth) ps r) (λ at old gs e. in_map e) (λ k. tt)
    below-Change path depth (attribute ps) r =
        visit-Change (OfPairs path 0 ps) (OfFrame path (attribute ps)) _ attribute missed
          (in_pairs-Change path 0 (suc depth) ps r) (λ at old gs e. in_attribute e) (λ k. tt)
    below-Change path depth _ r = tt

    in_frames-Change :
        (path : Bytes) (i depth : ℕ) (fs : Frames) (r : ℕ)
        → Change (OfItems path i fs) (in_frames c one path i depth fs r)
    in_frames-Change path i depth nil r = tt
    in_frames-Change path i depth (cons f fs) r =
        visit-Change (OfFrame (child path i) f) (OfItems path i (cons f fs)) _ (λ g. cons g fs) _
          (enter-Change (child path i) depth r f (below c one (child path i) depth f)
            (λ k. below-Change (child path i) depth f k))
          (λ at old g e. first fs e)
          (λ k.
            visit-Change (OfItems path (suc i) fs) (OfItems path i (cons f fs)) _ (cons f) missed
              (in_frames-Change path (suc i) depth fs k) (λ at old gs e. later f e) (λ l. tt))

    in_pairs-Change :
        (path : Bytes) (i depth : ℕ) (ps : Pairs) (r : ℕ)
        → Change (OfPairs path i ps) (in_pairs c one path i depth ps r)
    in_pairs-Change path i depth end r = tt
    in_pairs-Change path i depth (pair k v ps) r =
        let at_key = child path i ++ codes ".key" in
        let at_value = child path i ++ codes ".value" in
        visit-Change (OfFrame at_key k) (OfPairs path i (pair k v ps)) _ (λ g. pair g v ps) _
          (enter-Change at_key depth r k (below c one at_key depth k)
            (λ n. below-Change at_key depth k n))
          (λ at old g e. key v ps e)
          (λ n.
            visit-Change (OfFrame at_value v) (OfPairs path i (pair k v ps)) _ (λ g. pair k g ps) _
              (enter-Change at_value depth n v (below c one at_value depth v)
                (λ m. below-Change at_value depth v m))
              (λ at old g e. value k ps e)
              (λ m.
                visit-Change (OfPairs path (suc i) ps) (OfPairs path i (pair k v ps)) _ (pair k v)
                  missed (in_pairs-Change path (suc i) depth ps m) (λ at old qs e. later_pair k v e)
                  (λ l. tt)))

  pub mutate_selected-Change :
      (f : Frame) (remaining : ℕ)
      → Change (OfFrame (codes "root") f) (mutate_selected c one f remaining)
  unfolding mutate_selected
  mutate_selected-Change f remaining =
      enter-Change (codes "root") 0 remaining f (below c one (codes "root") 0 f)
        (λ k. below-Change (codes "root") 0 f k)
