-- ===== src/Mutation/Answers.antt =====
-- What `mutate` answers with.
use evilresp.Base.Bytes.{Bytes, codes}
use evilresp.Base.{
  ℕ, ◌≡◌, ◌≢◌, refl, ap, inl, inr, true, ◌||◌, List, [], ◌∷◌, ◌++◌, Option, none, some, Bool-cases,
}
use evilresp.Evil.{AppliedMutation, MutatedReply, MutationCount, MutationKind, one, many}
use evilresp.Framing.Mutate.{LengthFault, reply_of, mutate_length}
use evilresp.Framing.Faulty.{FaultyReply, FitsMemory, mutate_length-FaultyReply}
use evilresp.Mutation.Changed.{mutate_one-ne}
use evilresp.Mutation.Edited.{Edited, Change, OfFrame, mutate_selected-Change}
use evilresp.Mutation.Config.{EvilConfig, selection}
use evilresp.Mutation.Many.{Mutated, mutate_many}
use evilresp.Mutation.Reported.{Honest, mutate_many-Honest}
use evilresp.Mutation.Single.{is_overflow}
use evilresp.Mutation.Whole.{
  untouched, is_length, one_frame, selected_reply, offset_reply, one_value, first_fault,
  mutate_single, then_fault, mutate_all, mutate_counted, mutate,
}
use evilresp.Mutation.{is_mutate, eligible, Visit, hit, missed}
use evilresp.Random.{Random, should_apply}
use evilresp.Resp.Encode.{encode}
use evilresp.Resp.Frame.{Frame}

-- Without a report the bytes are those of the reply.
abbrev IsPlain : Frame → MutatedReply → Type 0
IsPlain f reply = reply.mutations ≡ [] → reply.bytes ≡ encode f

-- The answer with one mutation set: the reply as it came; the fault of a length and nothing else,
-- where framing is set to one; or the mutation of one eligible frame to another one, at the path that
-- is reported, and of no other.
pub data IsSingle (r : Random) (c : EvilConfig r) (f : Frame) (reply : MutatedReply) : Type 0 where
  as_it_came : reply.bytes ≡ encode f → reply.mutations ≡ [] → IsSingle r c f reply
  faulted : is_length r c.framing ≡ true → FaultyReply f reply → IsSingle r c f reply
  changed :
      (path : Bytes) (kind : MutationKind) (old new g : Frame) (gen : r.Gen)
      → eligible old (selection r c) ≡ true
      → one_frame r c gen old ≡ (new, kind)
      → new ≢ old
      → Edited path old new (codes "root") f g
      → reply.bytes ≡ encode g
      → reply.mutations ≡ record { path = path; kind = kind; length = none; exec = none } ∷ []
      → IsSingle r c f reply

append_empty : (xs ys : List AppliedMutation) → xs ++ ys ≡ [] → (xs ≡ []) × (ys ≡ [])
append_empty [] ys e = (refl, e)
append_empty (x ∷ xs) ys e = cc

module _ (r : Random) (c : EvilConfig r) (f : Frame) where
  selected_reply-IsPlain : (v : Visit (selection r c) Frame) → IsPlain f (selected_reply r c f v)
  selected_reply-IsPlain (hit next m) = λ e. cc
  selected_reply-IsPlain (missed remaining) = λ e. refl

  offset_reply-IsPlain : (o : Option (ℕ × r.Gen)) → IsPlain f (offset_reply r c f o)
  offset_reply-IsPlain none = λ e. refl
  offset_reply-IsPlain (some (remaining, g)) = selected_reply-IsPlain _

  one_value-IsPlain : (g : r.Gen) → IsPlain f (one_value r c f g)
  unfolding one_value
  one_value-IsPlain g = elim (Bool-cases (should_apply r c.probability g).0) [
    | inl applied ↦ rw applied (offset_reply-IsPlain _)
    | inr spared ↦ rw spared (λ e. refl)
  ]

  first_fault-IsPlain :
      (o : Option LengthFault) (g : r.Gen) → IsPlain f (first_fault r c f (reply_of f o, g))
  first_fault-IsPlain none g = one_value-IsPlain g
  first_fault-IsPlain (some fault) g = λ e. cc

  mutate_single-IsPlain : (g : r.Gen) → IsPlain f (mutate_single r c f g)
  unfolding mutate_single mutate_length
  mutate_single-IsPlain g = elim (Bool-cases (is_length r c.framing)) [
    | inl framed ↦ rw framed (first_fault-IsPlain _ _)
    | inr other ↦ rw other (one_value-IsPlain g)
  ]

  then_fault-IsPlain :
      (next : Frame) (ms : List AppliedMutation) (o : Option LengthFault)
      → (ms ≡ [] → next ≡ f)
      → IsPlain f (then_fault r next ms (reply_of next o))
  then_fault-IsPlain next ms none h e = ap encode (h e)
  then_fault-IsPlain next ms (some fault) h e = cc (append_empty ms _ e).1

  unreported_value : (m : Mutated r c Frame) → Honest r c f m → m.mutations ≡ [] → m.value ≡ f
  unreported_value m (inl (same, quiet)) e = same
  unreported_value m (inr (other, loud)) e = absurd (loud e)

  mutate_all-IsPlain : (g : r.Gen) → IsPlain f (mutate_all r c f g)
  unfolding mutate_all mutate_length
  mutate_all-IsPlain g =
      let m = mutate_many r c f g in
      then_fault-IsPlain m.value m.mutations _ (unreported_value m (mutate_many-Honest r c f g))

  mutate_counted-IsPlain :
      (count : MutationCount) (g : r.Gen) → IsPlain f (mutate_counted r count c f g)
  mutate_counted-IsPlain one g = mutate_single-IsPlain g
  mutate_counted-IsPlain many g = mutate_all-IsPlain g

  -- A reply with no mutation reported has the bytes of the encoded upstream frame, in every mode, with
  -- framing faults and without, for one mutation and for many.
  pub mutate-unreported :
      (g : r.Gen) → (mutate r c f g).mutations ≡ [] → (mutate r c f g).bytes ≡ encode f
  unfolding mutate
  mutate-unreported g = elim (Bool-cases (is_mutate c.mode || is_overflow c.mode)) [
    | inl active ↦ rw active (mutate_counted-IsPlain c.mutation_count g)
    | inr idle ↦ rw idle (λ e. refl)
  ]

  untouched-IsSingle : IsSingle r c f (untouched f)
  untouched-IsSingle = as_it_came refl refl

  selected_reply-IsSingle :
      (gen : r.Gen) (v : Visit (selection r c) Frame)
      → Change
          (selection r c)
          (one_frame r c gen)
          (OfFrame (selection r c) (one_frame r c gen) (codes "root") f)
          v
      → IsSingle r c f (selected_reply r c f v)
  selected_reply-IsSingle gen (missed remaining) h = untouched-IsSingle
  selected_reply-IsSingle gen (hit g m) (old, can, same, edited) =
      changed m.path (one_frame r c gen old).1 old (one_frame r c gen old).0 g gen can refl
        (mutate_one-ne r c old gen can) edited refl (ap (λ x. x ∷ []) same)

  offset_reply-IsSingle : (o : Option (ℕ × r.Gen)) → IsSingle r c f (offset_reply r c f o)
  offset_reply-IsSingle none = untouched-IsSingle
  offset_reply-IsSingle (some (remaining, g)) =
      selected_reply-IsSingle g _
        (mutate_selected-Change (selection r c) (one_frame r c g) f remaining)

  one_value-IsSingle : (g : r.Gen) → IsSingle r c f (one_value r c f g)
  unfolding one_value
  one_value-IsSingle g = elim (Bool-cases (should_apply r c.probability g).0) [
    | inl applied ↦ rw applied (offset_reply-IsSingle _)
    | inr spared ↦ rw spared untouched-IsSingle
  ]

  module _ (fits : FitsMemory f) where
    first_fault-IsSingle :
        (answer : Option MutatedReply × r.Gen)
        → is_length r c.framing ≡ true
        → ((reply : MutatedReply) → answer.0 ≡ some reply → FaultyReply f reply)
        → IsSingle r c f (first_fault r c f answer)
    first_fault-IsSingle (none, g) framed faulty = one_value-IsSingle g
    first_fault-IsSingle (some reply, g) framed faulty = faulted framed (faulty reply refl)

    mutate_single-IsSingle : (g : r.Gen) → IsSingle r c f (mutate_single r c f g)
    unfolding mutate_single
    mutate_single-IsSingle g = elim (Bool-cases (is_length r c.framing)) [
      | inl framed ↦ rw framed (
          first_fault-IsSingle (mutate_length r c f g) framed
            (λ reply e. mutate_length-FaultyReply r f fits c g reply e))
      | inr other ↦ rw other (one_value-IsSingle g)
    ]

    mutate_counted-IsSingle :
        (count : MutationCount) (g : r.Gen)
        → count ≡ one
        → IsSingle r c f (mutate_counted r count c f g)
    mutate_counted-IsSingle one g e = mutate_single-IsSingle g
    mutate_counted-IsSingle many g e = cc

    -- Where one mutation is set, a reply is as it came with nothing reported, or has the fault of one
    -- length header and no other change, where framing is set to one, or has one eligible frame
    -- replaced by another one and no other change, and the one report names the path of this frame
    -- and the kind of its mutation. The lengths of the reply lie below 2^63 - 1.
    pub mutate-IsSingle : (g : r.Gen) → c.mutation_count ≡ one → IsSingle r c f (mutate r c f g)
    unfolding mutate
    mutate-IsSingle g e = elim (Bool-cases (is_mutate c.mode || is_overflow c.mode)) [
      | inl active ↦ rw active (mutate_counted-IsSingle c.mutation_count g e)
      | inr idle ↦ rw idle untouched-IsSingle
    ]
