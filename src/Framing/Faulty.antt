-- ===== src/Framing/Faulty.antt =====
-- What `mutate_length` answers with.
use evilresp.Base.Bytes.{Bytes, codes, crlf}
use evilresp.Base.Decimal.{decimal_int}
use evilresp.Base.Int.{ℤ, pos, negsuc}
use evilresp.Base.Options.{of_some}
use evilresp.Base.{
  ℕ, ◌≡◌, ◌≢◌, refl, sym, ◌∙◌, ap, arith, inl, inr, List, [], ◌∷◌, ◌++◌, Option, none, some,
  get_elem?, Bool-cases,
}
use evilresp.Evil.{EvilMode, LengthCorruption, MutatedReply, MutationCount, one, many, wrong_length}
use evilresp.Framing.Ahead.{ahead}
use evilresp.Framing.Chosen.{FoundIn, select_header-FoundIn}
use evilresp.Framing.Config.{FramingConfig, LengthConfig, auto, off}
use evilresp.Framing.Config
use evilresp.Framing.Corrupt.{next_int}
use evilresp.Framing.Differs.{IsLength, decimal_int-ne, next_int-ne, corrupt_length-ne}
use evilresp.Framing.Mutate.{
  LengthFault, length_report, reply_of, auto_fault, header_fault, auto_length, drawn_length,
  fault_of, mutate_length,
}
use evilresp.Framing.Select.{Header, tree_depth}
use evilresp.Framing.Splice.{Splice}
use evilresp.Framing.Spliced.{encode_with_length-Splice}
use evilresp.Framing.Visit.{Visited, visit}
use evilresp.Generator.Scalars.{i64_max}
use evilresp.Mutation.Config.{EvilConfig, scale}
use evilresp.Mutation.Single.{is_overflow}
use evilresp.Random.{Random, should_apply}
use evilresp.Resp.Encode.{declared_length, encode, push_line}
use evilresp.Resp.Frame.{Frame}
use mathlib.Core.List.{append_cancel_left, append_cancel_right}

Splice-ne : (ahead own old new a b : Bytes) → new ≢ old → Splice ahead own old new a b → b ≢ a
Splice-ne ahead own old new a b h s e =
    let line = λ (text : Bytes). push_line s.prefix text ++ s.body in
    let headers : line new ≡ line old =
      append_cancel_right (line new) own s.rest (
        append_cancel_left ahead (line new ++ s.rest) (own ++ s.rest)
          (sym s.result ∙ e ∙ s.replaced))
      ∙ s.header in
    let lines =
      append_cancel_right (push_line s.prefix new) (push_line s.prefix old) s.body headers in
    h (append_cancel_right new old crlf (append_cancel_left (s.prefix ∷ []) _ _ lines))

-- The frames of a reply, as they are visited.
abbrev pub visits_of : Frame → List Visited
visits_of f = visit (codes "root") 0 f

-- No frame declares a length beyond what memory holds.
abbrev pub FitsMemory : Frame → Type 0
FitsMemory f =
    (n : ℕ) (v : Visited) (z : ℤ)
    → get_elem? (visits_of f) n ≡ some v
    → declared_length v.frame ≡ some z
    → IsLength z

-- A fault at the header of a visited frame, with another text than its length.
record IsFault (f : Frame) (fault : LengthFault) : Type 0 where
  chosen : FoundIn (visits_of f) fault.header
  differs : fault.replacement ≢ decimal_int fault.header.original

-- A visited frame is chosen. The bytes are those of the reply but for the length in the header of
-- this frame, the one behind the bytes ahead of it, and one mutation reports its path.
pub record FaultyReply (f : Frame) (reply : MutatedReply) : Type 0 where
  pub fault : LengthFault
  pub chosen : FoundIn (visits_of f) fault.header
  pub reported :
      reply.mutations
      ≡ record {
        path = chosen.visited.path;
        kind = wrong_length;
        length = some record {
          kind = fault.kind;
          original = decimal_int fault.header.original;
          replacement = fault.replacement;
        };
        exec = none;
      }
        ∷ []
  pub spliced :
      Splice
        (ahead f fault.header.index)
        (encode chosen.visited.frame)
        (decimal_int fault.header.original)
        fault.replacement
        (encode f)
        reply.bytes
  pub differs : reply.bytes ≢ encode f

abbrev IfFault : Frame → Option LengthFault → Type 0
IfFault f none = ℕ
IfFault f (some fault) = IsFault f fault

abbrev size : ℤ → ℕ
size (pos n) = n
size (negsuc n) = 0

max-ne : (z : ℤ) → IsLength z → i64_max ≢ z
max-ne (pos n) h = λ e. omega (arith, h, ap size e)
max-ne (negsuc n) h = λ e. cc

auto_fault-IsFault :
    (f : Frame) (mode : EvilMode) (o : Option ℤ)
    → declared_length f ≡ o
    → FitsMemory f
    → IfFault f (auto_fault mode o)
unfolding visit
auto_fault-IsFault f mode none d fits = 0
auto_fault-IsFault f mode (some z) d fits =
    let here : Visited = record { frame = f; path = codes "root"; depth = 0 } in
    record {
      chosen = record { visited = here; found = refl; path_same = refl; declared = d };
      differs = elim (Bool-cases (is_overflow mode)) [
        | inl at_limit ↦ rw at_limit (decimal_int-ne i64_max z (max-ne z (fits 0 here z refl d)))
        | inr plain ↦ rw plain (decimal_int-ne (next_int z) z (next_int-ne z))
      ];
    }

module _ (r : Random) (f : Frame) (fits : FitsMemory f) where
  header_fault-IsFault :
      (kind : Option LengthCorruption) (o : Option Header) (g : r.Gen)
      → ((h : Header) → o ≡ some h → FoundIn (visits_of f) h)
      → IfFault f (header_fault r kind o g).0
  unfolding header_fault
  header_fault-IsFault kind none g found = 0
  header_fault-IsFault kind (some h) g found =
      let at = found h refl in
      record {
        chosen = at;
        differs =
            corrupt_length-ne r h.original _ _
              (fits h.index at.visited h.original at.found at.declared);
      }

  auto_length-IsFault :
      (c : EvilConfig r) (count : MutationCount) (g : r.Gen)
      → IfFault f (auto_length r c count f g).0
  unfolding auto_length
  auto_length-IsFault c one g = 0
  auto_length-IsFault c many g =
      elim (Bool-cases (should_apply r (scale r c.depth c.probability 0 (tree_depth f)) g).0) [
        | inl applied ↦ rw applied (auto_fault-IsFault f c.mode (declared_length f) refl fits)
        | inr spared ↦ rw spared 0
      ]

  fault_of-IsFault :
      (c : EvilConfig r) (framing : FramingConfig r) (g : r.Gen)
      → IfFault f (fault_of r c framing f g).0
  unfolding fault_of drawn_length
  fault_of-IsFault c off g = 0
  fault_of-IsFault c auto g = auto_length-IsFault c c.mutation_count g
  fault_of-IsFault c (Config.FramingConfig.length options) g =
      elim (Bool-cases (should_apply r options.probability g).0) [
        | inl applied ↦ rw applied (
            header_fault-IsFault options.kind _ _
              (λ h e. select_header-FoundIn r f options.target c.depth _ h e))
        | inr spared ↦ rw spared 0
      ]

  reply_of-FaultyReply :
      (o : Option LengthFault) (reply : MutatedReply)
      → IfFault f o
      → reply_of f o ≡ some reply
      → FaultyReply f reply
  reply_of-FaultyReply none reply s e = cc
  reply_of-FaultyReply (some fault) reply s e =
      let h = fault.header in
      let found = s.chosen in
      let spliced =
        encode_with_length-Splice fault.replacement found.visited h.original found.declared f
          (codes "root") h.index found.found in
      of_some (FaultyReply f) e record {
        fault = fault;
        chosen = found;
        reported = ap (λ path. record (length_report fault) { path = path } ∷ []) found.path_same;
        spliced = spliced;
        differs = Splice-ne _ _ (decimal_int h.original) fault.replacement _ _ s.differs spliced;
      }

  -- A length fault replaces the length in the header of one frame of the reply, the one that stands
  -- behind the bytes ahead of this frame, by another text, and changes no other byte; the one
  -- mutation reported names the path of this frame, the length and the text. The lengths of the reply
  -- lie below 2^63 - 1.
  pub mutate_length-FaultyReply :
      (c : EvilConfig r) (g : r.Gen) (reply : MutatedReply)
      → (mutate_length r c f g).0 ≡ some reply
      → FaultyReply f reply
  unfolding mutate_length
  mutate_length-FaultyReply c g reply e =
      reply_of-FaultyReply (fault_of r c c.framing f g).0 reply (fault_of-IsFault c c.framing g) e
