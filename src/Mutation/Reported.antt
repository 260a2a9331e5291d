-- ===== src/Mutation/Reported.antt =====
-- What the mutation of every frame reports, and what a whole reply reports.
use evilresp.Base.Bytes.{Bytes, codes}
use evilresp.Base.{
  ℕ, suc, ◌≡◌, ◌≢◌, ◌⊎◌, refl, sym, ◌∙◌, ap, inl, inr, Bool, true, false, List, [], ◌∷◌, ◌++◌,
  Bool-cases,
}
use evilresp.Evil.{AppliedMutation}
use evilresp.Mutation.Changed.{mutate_one-ne}
use evilresp.Mutation.Config.{EvilConfig, selection}
use evilresp.Mutation.Many.{
  Mutated, rebuild, both, with_value, with_key, mutate_here, enter_drawn, enter_many, many_below,
  many_items, many_pairs, eligible_max_depth, depth_or_zero, mutate_many,
}
use evilresp.Mutation.{eligible, child}
use evilresp.Random.{Random}
use evilresp.Resp.Frame.{
  Frame, Frames, Pairs, nil, cons, end, pair, array, null, map, set, push, attribute,
}

module _ (r : Random) (c : EvilConfig r) where
  -- The value is as it was and nothing is reported, or it is another and something is.
  abbrev pub Honest : {A : Type 0} → A → Mutated r c A → Type 0
  Honest a m = (m.value ≡ a) × (m.mutations ≡ []) ⊎ (m.value ≢ a) × (m.mutations ≢ [])

  rebuild-Honest :
      {A B : Type 0} (f : A → B) (back : B → A) (a : A) (m : Mutated r c A)
      → ((x : A) → back (f x) ≡ x)
      → Honest a m
      → Honest (f a) (rebuild r c f m)
  rebuild-Honest f back a m inverse (inl (same, quiet)) = inl (ap f same, quiet)
  rebuild-Honest f back a m inverse (inr (other, loud)) =
      inr (λ e. other (sym (inverse m.value) ∙ ap back e ∙ inverse a), loud)

  append_empty : (xs ys : List AppliedMutation) → xs ++ ys ≡ [] → (xs ≡ []) × (ys ≡ [])
  append_empty [] ys e = (refl, e)
  append_empty (x ∷ xs) ys e = cc

  both-Honest :
      {A B C : Type 0} (f : A → B → C) (first : C → A) (second : C → B) (a : A) (b : B)
      (m : Mutated r c A) (next : r.Gen → Mutated r c B)
      → ((x : A) (y : B) → (first (f x y) ≡ x) × (second (f x y) ≡ y))
      → Honest a m
      → Honest b (next m.gen)
      → Honest (f a b) (both r c f m next)
  both-Honest f first second a b m next inverse (inl (same, quiet)) (inl (same', quiet')) = inl (
    ap (λ x. f x (next m.gen).value) same ∙ ap (f a) same',
    ap (λ x. x ++ (next m.gen).mutations) quiet ∙ quiet',
  )
  both-Honest f first second a b m next inverse (inr (other, loud)) h = inr (
    λ e. other (sym (inverse m.value (next m.gen).value).0 ∙ ap first e ∙ (inverse a b).0),
    λ e. loud (append_empty m.mutations (next m.gen).mutations e).0,
  )
  both-Honest f first second a b m next inverse (inl h) (inr (other, loud)) = inr (
    λ e. other (sym (inverse m.value (next m.gen).value).1 ∙ ap second e ∙ (inverse a b).1),
    λ e. loud (append_empty m.mutations (next m.gen).mutations e).1,
  )

  enter_drawn-Honest :
      (path : Bytes) (f : Frame) (drawn : Bool × r.Gen) (below : r.Gen → Mutated r c Frame)
      → eligible f (selection r c) ≡ true
      → ((g : r.Gen) → Honest f (below g))
      → Honest f (enter_drawn r c path f drawn below)
  unfolding enter_drawn mutate_here
  enter_drawn-Honest path f (true, g) below h rest = inr (mutate_one-ne r c f g h, λ e. cc)
  enter_drawn-Honest path f (false, g) below h rest = rest g

  enter_many-Honest :
      (path : Bytes) (depth most : ℕ) (f : Frame) (below : r.Gen → Mutated r c Frame) (g : r.Gen)
      → ((g' : r.Gen) → Honest f (below g'))
      → Honest f (enter_many r c path depth most f below g)
  unfolding enter_many
  enter_many-Honest path depth most f below g rest =
      elim (Bool-cases (eligible f (selection r c))) [
        | inl chosen ↦ rw chosen (enter_drawn-Honest path f _ below chosen rest)
        | inr other ↦ rw other (rest g)
      ]

  abbrev items_in : Frame → Frames
  items_in (array items) = items
  items_in (set items) = items
  items_in (push items) = items
  items_in _ = nil

  abbrev pairs_in : Frame → Pairs
  pairs_in (map items) = items
  pairs_in (attribute items) = items
  pairs_in _ = end

  abbrev head_in : Frames → Frame
  head_in nil = null
  head_in (cons f fs) = f

  abbrev tail_in : Frames → Frames
  tail_in nil = nil
  tail_in (cons f fs) = fs

  abbrev key_in : Pairs → Frame
  key_in end = null
  key_in (pair k v ps) = k

  abbrev rest_in : Pairs → Frame × Pairs
  rest_in end = (null, end)
  rest_in (pair k v ps) = (v, ps)

  mutual
    unfolding many_below

    many_below-Honest :
        (path : Bytes) (depth most : ℕ) (f : Frame) (g : r.Gen)
        → Honest f (many_below r c path depth most f g)
    many_below-Honest path depth most (array items) g =
        rebuild-Honest array items_in items (many_items r c path 0 (suc depth) most items g)
          (λ x. refl) (many_items-Honest path 0 (suc depth) most items g)
    many_below-Honest path depth most (set items) g =
        rebuild-Honest set items_in items (many_items r c path 0 (suc depth) most items g)
          (λ x. refl) (many_items-Honest path 0 (suc depth) most items g)
    many_below-Honest path depth most (push items) g =
        rebuild-Honest push items_in items (many_items r c path 0 (suc depth) most items g)
          (λ x. refl) (many_items-Honest path 0 (suc depth) most items g)
    many_below-Honest path depth most (map items) g =
        rebuild-Honest map pairs_in items (many_pairs r c path 0 (suc depth) most items g)
          (λ x. refl) (many_pairs-Honest path 0 (suc depth) most items g)
    many_below-Honest path depth most (attribute items) g =
        rebuild-Honest attribute pairs_in items (many_pairs r c path 0 (suc depth) most items g)
          (λ x. refl) (many_pairs-Honest path 0 (suc depth) most items g)
    many_below-Honest path depth most _ g = inl (refl, refl)

    many_items-Honest :
        (path : Bytes) (i depth most : ℕ) (fs : Frames) (g : r.Gen)
        → Honest fs (many_items r c path i depth most fs g)
    many_items-Honest path i depth most nil g = inl (refl, refl)
    many_items-Honest path i depth most (cons f fs) g =
        let below = many_below r c (child path i) depth most f in
        let first = enter_many r c (child path i) depth most f below g in
        both-Honest cons head_in tail_in f fs first (many_items r c path (suc i) depth most fs)
          (λ x y. (refl, refl))
          (enter_many-Honest (child path i) depth most f below g
            (λ g'. many_below-Honest (child path i) depth most f g'))
          (many_items-Honest path (suc i) depth most fs first.gen)

    many_pairs-Honest :
        (path : Bytes) (i depth most : ℕ) (ps : Pairs) (g : r.Gen)
        → Honest ps (many_pairs r c path i depth most ps g)
    many_pairs-Honest path i depth most end g = inl (refl, refl)
    many_pairs-Honest path i depth most (pair k v ps) g =
        let at_key = child path i ++ codes ".key" in
        let at_value = child path i ++ codes ".value" in
        let below_key = many_below r c at_key depth most k in
        let key = enter_many r c at_key depth most k below_key g in
        let below_value = many_below r c at_value depth most v in
        let value = λ (g' : r.Gen). enter_many r c at_value depth most v below_value g' in
        let rest = many_pairs r c path (suc i) depth most ps in
        both-Honest (with_key r c) key_in rest_in k (v, ps) key
          (λ g'. both r c (with_value r c) (value g') rest) (λ x y. (refl, refl))
          (enter_many-Honest at_key depth most k below_key g
            (λ g'. many_below-Honest at_key depth most k g'))
          (both-Honest (with_value r c) (λ p. p.0) (λ p. p.1) v ps (value key.gen) rest
            (λ x y. (refl, refl))
            (enter_many-Honest at_value depth most v below_value key.gen
              (λ g'. many_below-Honest at_value depth most v g'))
            (many_pairs-Honest path (suc i) depth most ps (value key.gen).gen))

  -- Whatever is drawn, either the reply is as it was and no mutation is reported, or the reply is
  -- another one and some mutation is reported.
  pub mutate_many-Honest : (f : Frame) (g : r.Gen) → Honest f (mutate_many r c f g)
  unfolding mutate_many
  mutate_many-Honest f g =
      let most = depth_or_zero r c (eligible_max_depth r c f) in
      enter_many-Honest (codes "root") 0 most f (many_below r c (codes "root") 0 most f) g
        (λ g'. many_below-Honest (codes "root") 0 most f g')
