-- ===== src/Mutation/Whole.antt =====
-- src/mutation.rs: `mutate`, the mutation of a whole reply.
use evilresp.Base.{
  ℕ, Bool, true, false, ◌||◌, List, [], ◌∷◌, ◌++◌, Option, none, some, if◌then◌else◌,
}
use evilresp.Evil.{MutationKind, AppliedMutation, MutatedReply, MutationCount, one, many}
use evilresp.Framing.Config.{FramingConfig, auto, off}
use evilresp.Framing.Config
use evilresp.Framing.Mutate.{mutate_length}
use evilresp.Mutation.Config.{EvilConfig, selection}
use evilresp.Mutation.Many.{mutate_many}
use evilresp.Mutation.Single.{is_overflow, mutate_one}
use evilresp.Mutation.{is_mutate, Visit, hit, missed, mutate_selected, select_weight}
use evilresp.Random.{Random, should_apply}
use evilresp.Resp.Encode.{encode}
use evilresp.Resp.Frame.{Frame}

-- The reply as it came.
abbrev pub untouched : Frame → MutatedReply
untouched f = record { bytes = encode f; mutations = [] }

module _ (r : Random) where
  open r use {Gen}

  abbrev pub is_length : FramingConfig r → Bool
  is_length (Config.FramingConfig.length options) = true
  is_length _ = false

  -- `mutate_one` as the selection uses it: the generator is not used again.
  abbrev pub one_frame : EvilConfig r → Gen → Frame → Frame × MutationKind
  one_frame c g f = let (next, kind, g') = mutate_one r c f g in (next, kind)

  abbrev pub selected_reply :
      (c : EvilConfig r) → Frame → Visit (selection r c) Frame → MutatedReply
  selected_reply c f (hit next m) = record { bytes = encode next; mutations = m ∷ [] }
  selected_reply c f (missed remaining) = untouched f

  abbrev pub offset_reply : EvilConfig r → Frame → Option (ℕ × Gen) → MutatedReply
  offset_reply c f none = untouched f
  offset_reply c f (some (remaining, g)) =
      selected_reply c f (mutate_selected (selection r c) (one_frame c g) f remaining)

  -- The one value mutation.
  unfoldable pub one_value : EvilConfig r → Frame → Gen → MutatedReply
  one_value c f g =
      let (applied, g') = should_apply r c.probability g in
      if applied then offset_reply c f (select_weight r (selection r c) f g') else untouched f

  -- An explicit length fault goes first.
  abbrev pub first_fault : EvilConfig r → Frame → Option MutatedReply × Gen → MutatedReply
  first_fault c f (some reply, g) = reply
  first_fault c f (none, g) = one_value c f g

  unfoldable pub mutate_single : EvilConfig r → Frame → Gen → MutatedReply
  unfolding one_value
  mutate_single c f g =
      if is_length c.framing then first_fault c f (mutate_length r c f g) else one_value c f g

  -- The value mutations, then the fault of the length in their result.
  abbrev pub then_fault : Frame → List AppliedMutation → Option MutatedReply → MutatedReply
  then_fault f ms none = record { bytes = encode f; mutations = ms }
  then_fault f ms (some reply) = record { bytes = reply.bytes; mutations = ms ++ reply.mutations }

  unfoldable pub mutate_all : EvilConfig r → Frame → Gen → MutatedReply
  mutate_all c f g =
      let m = mutate_many r c f g in
      then_fault m.value m.mutations (mutate_length r c m.value m.gen).0

  abbrev pub mutate_counted : MutationCount → EvilConfig r → Frame → Gen → MutatedReply
  mutate_counted one = mutate_single
  mutate_counted many = mutate_all

  -- `mutate`.
  unfoldable pub mutate : EvilConfig r → Frame → Gen → MutatedReply
  unfolding mutate_single mutate_all
  mutate c f g =
      if is_mutate c.mode || is_overflow c.mode
      then mutate_counted c.mutation_count c f g
      else untouched f
