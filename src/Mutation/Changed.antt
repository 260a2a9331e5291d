-- ===== src/Mutation/Changed.antt =====
-- A frame that is mutated is another frame.
use evilresp.Base.Bytes.{equal_refl}
use evilresp.Base.{◌≡◌, ◌≢◌, refl, ◌∙◌, ap, inl, inr, true, false, none, some, Bool-cases}
use evilresp.Evil.{EvilMode, mutate}
use evilresp.Generator.Different.{mutate_scalar-ne, same_int_refl, same_words_refl}
use evilresp.Mutation.Config.{EvilConfig, selection}
use evilresp.Mutation.Single.{
  is_overflow, overflows, is_zero, replaced, overflow_one, change_one, mutate_one,
}
use evilresp.Mutation.{eligible, eligible_kind, eligible_by, MutationStrategy, preserve, replace}
use evilresp.Random.{Random}
use evilresp.Resp.Frame.{
  Frame, Frames, Pairs, nil, cons, end, pair, simple_string, simple_error, integer, bulk_string,
  array, null_array, null, boolean, double, big_number, bulk_error, verbatim_string, map, set, push,
  attribute, inline,
}
use evilresp.Resp.Same.{same, same_frames, same_pairs, same_int}

mutual
  unfolding same

  pub same_refl : (f : Frame) → same f f ≡ true
  same_refl (simple_string a) = equal_refl a
  same_refl (simple_error a) = equal_refl a
  same_refl (integer a) = same_int_refl a
  same_refl (bulk_string none) = refl
  same_refl (bulk_string (some a)) = equal_refl a
  same_refl (array a) = same_frames_refl a
  same_refl null_array = refl
  same_refl null = refl
  same_refl (boolean true) = refl
  same_refl (boolean false) = refl
  same_refl (double a) = equal_refl a
  same_refl (big_number a) = equal_refl a
  same_refl (bulk_error a) = equal_refl a
  same_refl (verbatim_string a) = equal_refl a
  same_refl (map a) = same_pairs_refl a
  same_refl (set a) = same_frames_refl a
  same_refl (push a) = same_frames_refl a
  same_refl (attribute a) = same_pairs_refl a
  same_refl (inline a) = same_words_refl a

  same_frames_refl : (fs : Frames) → same_frames fs fs ≡ true
  same_frames_refl nil = refl
  same_frames_refl (cons f fs) = rw (same_refl f) (same_frames_refl fs)

  same_pairs_refl : (ps : Pairs) → same_pairs ps ps ≡ true
  same_pairs_refl end = refl
  same_pairs_refl (pair k v ps) = rw (same_refl k, same_refl v) (same_pairs_refl ps)

replaced-ne : (frame next : Frame) → replaced frame next ≢ frame
unfolding replaced same_int
replaced-ne frame next = elim (Bool-cases (same frame next)) [
  | inr other ↦ rw other (λ e. cc (same_refl frame, rw e at other))
  | inl equal ↦ elim (Bool-cases (is_zero frame)) [
    | inl zero_frame ↦ rw (equal, zero_frame) (λ e. cc (ap is_zero e ∙ zero_frame))
    | inr other ↦ rw (equal, other) (λ e. cc (ap is_zero e ∙ other))
  ]
]

-- Where overflow is done in place, the scalar is one that mutation may change.
overflows-eligible_kind : (f : Frame) → overflows f ≡ true → eligible_kind mutate f ≡ true
unfolding eligible_kind
overflows-eligible_kind (simple_string a) h = refl
overflows-eligible_kind (simple_error a) h = refl
overflows-eligible_kind (integer a) h = refl
overflows-eligible_kind (bulk_string (some a)) h = refl
overflows-eligible_kind (double a) h = refl
overflows-eligible_kind (big_number a) h = refl
overflows-eligible_kind (bulk_error a) h = refl
overflows-eligible_kind (verbatim_string a) h = refl
overflows-eligible_kind (bulk_string none) h = cc
overflows-eligible_kind _ h = cc

eligible_kind-mutate :
    (m : EvilMode) (f : Frame) → eligible_kind m f ≡ true → eligible_kind mutate f ≡ true
unfolding eligible_kind
eligible_kind-mutate m (simple_string a) h = refl
eligible_kind-mutate m (simple_error a) h = refl
eligible_kind-mutate m (integer a) h = refl
eligible_kind-mutate m (bulk_string (some a)) h = refl
eligible_kind-mutate m (double a) h = refl
eligible_kind-mutate m (big_number a) h = refl
eligible_kind-mutate m (bulk_error a) h = refl
eligible_kind-mutate m (verbatim_string a) h = refl
eligible_kind-mutate m (boolean b) h = refl
eligible_kind-mutate m (inline b) h = refl
eligible_kind-mutate m (bulk_string none) h = cc
eligible_kind-mutate m _ h = cc

module _ (r : Random) (c : EvilConfig r) where
  overflow_one-ne : (f : Frame) (g : r.Gen) → (overflow_one r c f g).0 ≢ f
  unfolding overflow_one
  overflow_one-ne f g = elim (Bool-cases (overflows f)) [
    | inl scalar ↦
        rw scalar (mutate_scalar-ne r c.generator f true g (overflows-eligible_kind f scalar))
    | inr other ↦ rw other (λ e. cc (ap overflows e ∙ other))
  ]

  change_one-ne :
      (s : MutationStrategy) (f : Frame) (g : r.Gen)
      → eligible_by s c.mode f ≡ true
      → (change_one r c s f g).0 ≢ f
  unfolding change_one eligible_by
  change_one-ne preserve f g h =
      mutate_scalar-ne r c.generator f false g (eligible_kind-mutate c.mode f h)
  change_one-ne replace f g h = replaced-ne f _

  -- The mutation of an eligible frame gives another frame, whatever is drawn, in every mode and under
  -- both strategies.
  pub mutate_one-ne :
      (f : Frame) (g : r.Gen) → eligible f (selection r c) ≡ true → (mutate_one r c f g).0 ≢ f
  unfolding mutate_one eligible
  mutate_one-ne f g h = elim (Bool-cases (is_overflow c.mode)) [
    | inl at_limit ↦ rw at_limit (overflow_one-ne f g)
    | inr plain ↦ rw plain (change_one-ne c.strategy f g h)
  ]
