-- ===== src/Framing/Mutate.antt =====
-- src/framing.rs: `mutate_length`.
use evilresp.Base.Bytes.{Bytes, codes}
use evilresp.Base.Decimal.{decimal_int}
use evilresp.Base.Int.{ℤ}
use evilresp.Base.{List, [], ◌∷◌, Option, none, some, length, get_or, if◌then◌else◌}
use evilresp.Evil.{
  EvilMode, LengthCorruption, shorter, longer, negative, boundary, overflow, wrong_length,
  AppliedMutation, MutatedReply, MutationCount, one, many,
}
use evilresp.Framing.Config.{FramingConfig, LengthConfig, auto, off}
use evilresp.Framing.Config
use evilresp.Framing.Corrupt.{next_int, corrupt_length}
use evilresp.Framing.Select.{Header, select_header, tree_depth}
use evilresp.Generator.Scalars.{i64_max}
use evilresp.Mutation.Config.{EvilConfig, scale}
use evilresp.Mutation.Single.{is_overflow}
use evilresp.Random.{Random, should_apply}
use evilresp.Resp.Encode.{declared_length, encode_with_length}
use evilresp.Resp.Frame.{Frame}

-- What is replaced by what.
pub record LengthFault : Type 0 where
  pub header : Header
  pub kind : LengthCorruption
  pub replacement : Bytes

abbrev pub length_report : LengthFault → AppliedMutation
length_report fault = record {
  path = fault.header.path;
  kind = wrong_length;
  length = some record {
    kind = fault.kind;
    original = decimal_int fault.header.original;
    replacement = fault.replacement;
  };
  exec = none;
}

abbrev pub faulty_reply : Frame → LengthFault → MutatedReply
faulty_reply f fault = record {
  bytes = encode_with_length f fault.header.index fault.replacement;
  mutations = length_report fault ∷ [];
}

abbrev pub reply_of : Frame → Option LengthFault → Option MutatedReply
reply_of f none = none
reply_of f (some fault) = some (faulty_reply f fault)

abbrev pub kinds : List LengthCorruption
kinds = shorter ∷ longer ∷ negative ∷ boundary ∷ overflow ∷ []

-- The fault of the root, with an original length.
abbrev pub auto_fault : EvilMode → Option ℤ → Option LengthFault
auto_fault mode none = none
auto_fault mode (some z) = some record {
  header = record { index = 0; path = codes "root"; original = z };
  kind = if is_overflow mode then boundary else longer;
  replacement = decimal_int (if is_overflow mode then i64_max else next_int z);
}

module _ (r : Random) where
  open r use {Gen, gen_range}

  -- No draw is made where the kind is set.
  unfoldable pub draw_kind : Option LengthCorruption → Gen → LengthCorruption × Gen
  draw_kind none g = let (i, g') = gen_range 0 (length kinds) g in (get_or kinds i shorter, g')
  draw_kind (some kind) g = (kind, g)

  unfoldable pub header_fault :
      Option LengthCorruption → Option Header → Gen → Option LengthFault × Gen
  unfolding draw_kind
  header_fault kind none g = (none, g)
  header_fault kind (some h) g =
      let (k, g') = draw_kind kind g in
      let (text, g'') = corrupt_length r h.original k g' in
      (some record { header = h; kind = k; replacement = text }, g'')

  unfoldable pub auto_length : EvilConfig r → MutationCount → Frame → Gen → Option LengthFault × Gen
  auto_length c one f g = (none, g)
  auto_length c many f g =
      let (applied, g') = should_apply r (scale r c.depth c.probability 0 (tree_depth f)) g in
      (if applied then auto_fault c.mode (declared_length f) else none, g')

  unfoldable pub drawn_length :
      EvilConfig r → LengthConfig r → Frame → Gen → Option LengthFault × Gen
  unfolding header_fault
  drawn_length c options f g =
      let (applied, g') = should_apply r options.probability g in
      let (header, g'') = select_header r f options.target c.depth g' in
      if applied then header_fault options.kind header g'' else (none, g')

  unfoldable pub fault_of : EvilConfig r → FramingConfig r → Frame → Gen → Option LengthFault × Gen
  unfolding auto_length drawn_length
  fault_of c off f g = (none, g)
  fault_of c auto f g = auto_length c c.mutation_count f g
  fault_of c (Config.FramingConfig.length options) f g = drawn_length c options f g

  -- `mutate_length`, with the generator that is left.
  unfoldable pub mutate_length : EvilConfig r → Frame → Gen → Option MutatedReply × Gen
  unfolding fault_of
  mutate_length c f g = let (fault, g') = fault_of c c.framing f g in (reply_of f fault, g')
