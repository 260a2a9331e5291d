-- ===== src/Mutation/Many.antt =====
-- src/mutation.rs: `mutate_frame`, which draws for every frame whether it is mutated.
use evilresp.Base.Bytes.{Bytes, codes}
use evilresp.Base.{
  ℕ, suc, Bool, true, false, List, [], ◌∷◌, ◌++◌, Option, none, some, max, if◌then◌else◌,
}
use evilresp.Evil.{AppliedMutation, value_report}
use evilresp.Mutation.Config.{EvilConfig, selection, scale}
use evilresp.Mutation.Single.{mutate_one}
use evilresp.Mutation.{eligible, child}
use evilresp.Random.{Random, should_apply}
use evilresp.Resp.Frame.{
  Frame, Frames, Pairs, nil, cons, end, pair, array, map, set, push, attribute,
}

-- `Option::max`, under which `none` is the least.
abbrev pub deeper : Option ℕ → Option ℕ → Option ℕ
deeper none o = o
deeper (some m) none = some m
deeper (some m) (some n) = some (max m n)

module _ (r : Random) (c : EvilConfig r) where
  unfoldable pub own_depth : Frame → ℕ → Option ℕ
  own_depth frame depth = if eligible frame (selection r c) then some depth else none

  -- `eligible_max_depth`: of the children of a frame, and of vectors.
  unfoldable mutual
    unfolding own_depth

    pub children_depth : Frame → ℕ → Option ℕ
    children_depth (array items) depth = items_depth items (suc depth)
    children_depth (set items) depth = items_depth items (suc depth)
    children_depth (push items) depth = items_depth items (suc depth)
    children_depth (map items) depth = pairs_depth items (suc depth)
    children_depth (attribute items) depth = pairs_depth items (suc depth)
    children_depth _ depth = none

    pub items_depth : Frames → ℕ → Option ℕ
    items_depth nil depth = none
    items_depth (cons f fs) depth =
        deeper (deeper (own_depth f depth) (children_depth f depth)) (items_depth fs depth)

    pub pairs_depth : Pairs → ℕ → Option ℕ
    pairs_depth end depth = none
    pairs_depth (pair k v ps) depth =
        deeper (deeper (own_depth k depth) (children_depth k depth))
          (deeper (deeper (own_depth v depth) (children_depth v depth)) (pairs_depth ps depth))

  unfoldable pub eligible_max_depth : Frame → Option ℕ
  unfolding children_depth own_depth
  eligible_max_depth frame = deeper (own_depth frame 0) (children_depth frame 0)

  -- What a loop has made of a value, with the mutations that it reports, in order.
  pub record Mutated (A : Type 0) : Type 0 where
    pub value : A
    pub mutations : List AppliedMutation
    pub gen : r.Gen

  abbrev pub rebuild : {A B : Type 0} → (A → B) → Mutated A → Mutated B
  rebuild f m = record { value = f m.value; mutations = m.mutations; gen = m.gen }

  -- One value, then the next with the generator that is left.
  abbrev pub both : {A B C : Type 0} → (A → B → C) → Mutated A → (r.Gen → Mutated B) → Mutated C
  both f m next =
      let n = next m.gen in
      record { value = f m.value n.value; mutations = m.mutations ++ n.mutations; gen = n.gen }

  abbrev pub with_value : Frame → Pairs → Frame × Pairs
  with_value v ps = (v, ps)

  abbrev pub with_key : Frame → Frame × Pairs → Pairs
  with_key k rest = pair k rest.0 rest.1

  unfoldable pub mutate_here : Bytes → Frame → r.Gen → Mutated Frame
  mutate_here path frame g =
      let m = mutate_one r c frame g in
      record { value = m.0; mutations = value_report path m.1 ∷ []; gen = m.2 }

  -- The mutation of the frame itself where it is drawn; `below` goes on with its children.
  unfoldable pub enter_drawn :
      Bytes → Frame → Bool × r.Gen → (r.Gen → Mutated Frame) → Mutated Frame
  unfolding mutate_here
  enter_drawn path frame (true, g) below = mutate_here path frame g
  enter_drawn path frame (false, g) below = below g

  -- The draw is made for an eligible frame only.
  unfoldable pub enter_many :
      Bytes → ℕ → ℕ → Frame → (r.Gen → Mutated Frame) → r.Gen → Mutated Frame
  unfolding enter_drawn
  enter_many path depth max_depth frame below g =
      if eligible frame (selection r c)
      then enter_drawn path frame (should_apply r (scale r c.depth c.probability depth max_depth) g)
          below
      else below g

  unfoldable mutual
    unfolding enter_many

    pub many_below : Bytes → ℕ → ℕ → Frame → r.Gen → Mutated Frame
    many_below path depth most (array items) g =
        rebuild array (many_items path 0 (suc depth) most items g)
    many_below path depth most (set items) g =
        rebuild set (many_items path 0 (suc depth) most items g)
    many_below path depth most (push items) g =
        rebuild push (many_items path 0 (suc depth) most items g)
    many_below path depth most (map items) g =
        rebuild map (many_pairs path 0 (suc depth) most items g)
    many_below path depth most (attribute items) g =
        rebuild attribute (many_pairs path 0 (suc depth) most items g)
    many_below path depth most frame g = record { value = frame; mutations = []; gen = g }

    pub many_items : Bytes → ℕ → ℕ → ℕ → Frames → r.Gen → Mutated Frames
    many_items path i depth most nil g = record { value = nil; mutations = []; gen = g }
    many_items path i depth most (cons f fs) g =
        both cons
          (enter_many (child path i) depth most f (many_below (child path i) depth most f) g)
          (many_items path (suc i) depth most fs)

    pub many_pairs : Bytes → ℕ → ℕ → ℕ → Pairs → r.Gen → Mutated Pairs
    many_pairs path i depth most end g = record { value = end; mutations = []; gen = g }
    many_pairs path i depth most (pair k v ps) g =
        let at_key = child path i ++ codes ".key" in
        let at_value = child path i ++ codes ".value" in
        both with_key (enter_many at_key depth most k (many_below at_key depth most k) g) λ g'.
          both with_value (enter_many at_value depth most v (many_below at_value depth most v) g')
            (many_pairs path (suc i) depth most ps)

  abbrev pub depth_or_zero : Option ℕ → ℕ
  depth_or_zero none = 0
  depth_or_zero (some n) = n

  -- `mutate_frame` from the root.
  unfoldable pub mutate_many : Frame → r.Gen → Mutated Frame
  unfolding many_below enter_many eligible_max_depth
  mutate_many frame g =
      let most = depth_or_zero (eligible_max_depth frame) in
      enter_many (codes "root") 0 most frame (many_below (codes "root") 0 most frame) g
