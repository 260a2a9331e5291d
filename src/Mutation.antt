-- ===== src/Mutation.antt =====
-- src/mutation.rs: which frame of a reply is mutated when there is to be one mutation. The mutation of
-- the frame itself is the parameter `one`.
pub mod Config
pub mod Many
pub mod Single
pub mod Whole
mod Selected
pub mod Edited
pub mod Changed
mod Reported
pub mod Answers
mod Tests
use evilresp.Base.Bytes.{Bytes, codes}
use evilresp.Base.Decimal.{decimal}
use evilresp.Base.{
  ℕ, zero, suc, ◌+◌, ◌-◌, ◌^◌, Bool, true, false, ◌&&◌, List, [], ◌∷◌, ◌++◌, Option, none, some,
  min, ltb, ◌==◌, if◌then◌else◌,
}
use evilresp.Evil.{EvilMode, mutate, MutationKind, AppliedMutation}
use evilresp.Random.{Random}
use evilresp.Resp.Frame.{
  Frame, Frames, Pairs, nil, cons, end, pair, simple_string, simple_error, integer, bulk_string,
  array, boolean, double, big_number, bulk_error, verbatim_string, map, set, push, attribute,
  inline,
}

pub data MutationStrategy : Type 0 where
  preserve replace : MutationStrategy

pub data MutationDepth : Type 0 where
  any inner : MutationDepth

-- The fields of `EvilConfig` that selection reads.
pub record SelectConfig : Type 0 where
  pub mode : EvilMode
  pub strategy : MutationStrategy
  pub depth : MutationDepth

abbrev pub is_mutate : EvilMode → Bool
is_mutate mutate = true
is_mutate _ = false

-- `format!("{path}.{index}")`.
abbrev pub child : Bytes → ℕ → Bytes
child path index = path ++ (codes "." ++ decimal index)

unfoldable pub eligible_kind : EvilMode → Frame → Bool
eligible_kind mode (simple_string s) = true
eligible_kind mode (simple_error s) = true
eligible_kind mode (integer n) = true
eligible_kind mode (bulk_string (some bytes)) = true
eligible_kind mode (double s) = true
eligible_kind mode (big_number s) = true
eligible_kind mode (bulk_error bytes) = true
eligible_kind mode (verbatim_string bytes) = true
eligible_kind mode (boolean b) = is_mutate mode
eligible_kind mode (inline words) = is_mutate mode
eligible_kind mode _ = false

unfoldable pub eligible_by : MutationStrategy → EvilMode → Frame → Bool
unfolding eligible_kind
eligible_by replace mode frame = true
eligible_by preserve mode frame = eligible_kind mode frame

unfoldable pub eligible : Frame → SelectConfig → Bool
unfolding eligible_by
eligible frame c = eligible_by c.strategy c.mode frame

-- `MutationDepth::weight`.
unfoldable pub weight : MutationDepth → ℕ → ℕ
weight any depth = 1
weight inner depth = 2 ^ min depth 64

module _ (c : SelectConfig) where
  unfoldable pub own_weight : Frame → ℕ → ℕ
  unfolding eligible weight
  own_weight frame depth = if eligible frame c then weight c.depth depth else 0

  -- `eligible_weight` of the children of a frame at `depth`, and of vectors of frames at `depth`.
  unfoldable mutual
    unfolding own_weight

    pub children_weight : Frame → ℕ → ℕ
    children_weight (array items) depth = frames_weight items (suc depth)
    children_weight (set items) depth = frames_weight items (suc depth)
    children_weight (push items) depth = frames_weight items (suc depth)
    children_weight (map items) depth = pairs_weight items (suc depth)
    children_weight (attribute items) depth = pairs_weight items (suc depth)
    children_weight _ depth = 0

    pub frames_weight : Frames → ℕ → ℕ
    frames_weight nil depth = 0
    frames_weight (cons f fs) depth =
        own_weight f depth + children_weight f depth + frames_weight fs depth

    pub pairs_weight : Pairs → ℕ → ℕ
    pairs_weight end depth = 0
    pairs_weight (pair k v ps) depth =
        own_weight k depth
        + children_weight k depth
        + (own_weight v depth + children_weight v depth + pairs_weight ps depth)

  unfoldable pub eligible_weight : Frame → ℕ → ℕ
  unfolding children_weight own_weight
  eligible_weight frame depth = own_weight frame depth + children_weight frame depth

  -- A visit mutates a frame below and reports it, or leaves all as it is and a rest of the weight.
  pub data Visit (A : Type 0) : Type 0 where
    hit : A → AppliedMutation → Visit A
    missed : ℕ → Visit A

  module _ (one : Frame → Frame × MutationKind) where
    abbrev pub mutated : Bytes → Frame → AppliedMutation
    mutated path frame = record { path = path; kind = (one frame).1; length = none; exec = none }

    -- The frame itself, then its children.
    unfoldable pub enter : Bytes → ℕ → ℕ → Frame → (ℕ → Visit Frame) → Visit Frame
    unfolding eligible weight
    enter path depth remaining frame below =
        if eligible frame c
        then (if ltb remaining (weight c.depth depth)
            then hit (one frame).0 (mutated path frame)
            else below (remaining - weight c.depth depth))
        else below remaining

    -- On with the next sibling when nothing was hit.
    abbrev pub visit : {A B : Type 0} → Visit A → (A → B) → (ℕ → Visit B) → Visit B
    visit (hit a m) rebuilt next = hit (rebuilt a) m
    visit (missed remaining) rebuilt next = next remaining

    unfoldable mutual
      unfolding enter

      pub below : Bytes → ℕ → Frame → ℕ → Visit Frame
      below path depth (array items) r = visit (in_frames path 0 (suc depth) items r) array missed
      below path depth (set items) r = visit (in_frames path 0 (suc depth) items r) set missed
      below path depth (push items) r = visit (in_frames path 0 (suc depth) items r) push missed
      below path depth (map items) r = visit (in_pairs path 0 (suc depth) items r) map missed
      below path depth (attribute items) r =
          visit (in_pairs path 0 (suc depth) items r) attribute missed
      below path depth _ r = missed r

      pub in_frames : Bytes → ℕ → ℕ → Frames → ℕ → Visit Frames
      in_frames path i depth nil r = missed r
      in_frames path i depth (cons f fs) r =
          visit (enter (child path i) depth r f (below (child path i) depth f)) (λ g. cons g fs)
            λ r'. visit (in_frames path (suc i) depth fs r') (cons f) missed

      pub in_pairs : Bytes → ℕ → ℕ → Pairs → ℕ → Visit Pairs
      in_pairs path i depth end r = missed r
      in_pairs path i depth (pair k v ps) r =
          let at_key = child path i ++ codes ".key" in
          let at_value = child path i ++ codes ".value" in
          visit (enter at_key depth r k (below at_key depth k)) (λ g. pair g v ps)
            λ r'.
              visit (enter at_value depth r' v (below at_value depth v)) (λ g. pair k g ps)
                λ r''. visit (in_pairs path (suc i) depth ps r'') (pair k v) missed

    -- `mutate_selected` from the root.
    unfoldable pub mutate_selected : Frame → ℕ → Visit Frame
    unfolding below enter
    mutate_selected frame remaining =
        enter (codes "root") 0 remaining frame (below (codes "root") 0 frame)

-- `select_weight`: both draws are uniform below the total.
unfoldable pub select_weight : (r : Random) → SelectConfig → Frame → r.Gen → Option (ℕ × r.Gen)
select_weight r c frame g =
    let total = eligible_weight c frame 0 in
    if total == 0 then none else some (r.gen_range 0 total g)
