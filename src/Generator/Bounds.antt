-- ===== src/Generator/Bounds.antt =====
-- Generated frames are at most three levels deep.
use evilresp.Base.{
  ℕ, zero, suc, ◌+◌, ◌-◌, ◌≤◌, ◌<◌, ◌≡◌, refl, arith, inl, inr, Bool, true, false, ◌||◌, List, [],
  ◌∷◌, all, length, get_or, take, ltb, ◌==◌, if◌then◌else◌, Bool-cases, &&-true,
}
use evilresp.Generator.Config.{GeneratorConfig, Protocol, resp2, resp3}
use evilresp.Generator.Drawn.{violate}
use evilresp.Generator.Frames.{
  contains, fresh, push_item, draw_count, items_from, pairs_from, set_from, build, sideband_frame,
  violation_of, violation, available, valid_frame, choose_frame, nothing, frame_at, draw_frame, len,
}
use evilresp.Generator.Kinds.{Kind, kinds_of, is_leaf, aggregates, is_resp2}
use evilresp.Random.{Random}
use evilresp.Resp.Frame.{Frame, Frames, nil, cons}
use evilresp.Resp.Wire.{depth, depth_items, depth_pairs}

fresh-depth :
    (fuel d : ℕ) (items : Frames) (item : Frame) (k : ℕ)
    → 1 ≤ d
    → depth item ≤ d
    → depth (fresh fuel items item k) ≤ d
unfolding fresh depth
fresh-depth zero d items item k low h = h
fresh-depth (suc fuel) d items item k low h = elim (Bool-cases (contains items item)) [
  | inl taken ↦ rw taken (fresh-depth fuel d items _ (suc k) low low)
  | inr free ↦ rw free h
]

push_item-depth :
    (d : ℕ) (items : Frames) (item : Frame)
    → depth_items items ≤ d
    → depth item ≤ d
    → depth_items (push_item items item) ≤ d
unfolding push_item depth
push_item-depth d nil item h k = omega (arith, k)
push_item-depth d (cons f fs) item h k =
    omega (arith, push_item-depth d fs item (omega (arith, h)) k, h)

-- In a list whose first `n` elements pass a test, so does the one at any index below `n`.
all-get_or {ℓ} :
    {A : Type ℓ} (p : A → Bool) (xs : List A) (n i : ℕ) (d : A)
    → all p (take n xs) ≡ true
    → i < n
    → n ≤ length xs
    → p (get_or xs i d) ≡ true
all-get_or p [] n i d h low high = absurd (omega arith)
all-get_or p (x ∷ xs) zero i d h low high = absurd (omega arith)
all-get_or p (x ∷ xs) (suc n) zero d h low high = (&&-true (p x) (all p (take n xs)) h).0
all-get_or p (x ∷ xs) (suc n) (suc i) d h low high =
    all-get_or p xs n i d (&&-true (p x) (all p (take n xs)) h).1 (omega arith) (omega arith)

module _ (r : Random) (c : GeneratorConfig) where
  abbrev Within : ℕ → (r.Gen → Frame × r.Gen) → Type 0
  Within d next = (g : r.Gen) → depth (next g).0 ≤ d

  items_from-depth :
      (next : r.Gen → Frame × r.Gen) (d n : ℕ) (g : r.Gen)
      → Within d next
      → depth_items (items_from r c next n g).0 ≤ d
  unfolding items_from depth
  items_from-depth next d zero g h = omega arith
  items_from-depth next d (suc n) g h = omega (arith, h g, items_from-depth next d n (next g).1 h)

  pairs_from-depth :
      (next : r.Gen → Frame × r.Gen) (d i n : ℕ) (g : r.Gen)
      → 1 ≤ d
      → Within d next
      → depth_pairs (pairs_from r c next i n g).0 ≤ d
  unfolding pairs_from depth
  pairs_from-depth next d i zero g low h = omega arith
  pairs_from-depth next d i (suc n) g low h =
      omega (arith, h g, pairs_from-depth next d (suc i) n (next g).1 low h)

  set_from-depth :
      (next : r.Gen → Frame × r.Gen) (d i n : ℕ) (items : Frames) (g : r.Gen)
      → 1 ≤ d
      → Within d next
      → depth_items items ≤ d
      → depth_items (set_from r c next i n items g).0 ≤ d
  unfolding set_from
  set_from-depth next d i zero items g low h k = k
  set_from-depth next d i (suc n) items g low h k =
      let item = fresh (len items + 2) items (next g).0 i in
      set_from-depth next d (suc i) n (push_item items item) (next g).1 low h (
        push_item-depth d items item k (fresh-depth (len items + 2) d items (next g).0 i low (h g)))

  build-depth :
      (next : r.Gen → Frame × r.Gen) (d : ℕ) (kind : Kind) (g : r.Gen)
      → 1 ≤ d
      → Within d next
      → depth (build r c next kind g).0 ≤ suc d
  unfolding build depth
  build-depth next d Kind.array g low h =
      let n = draw_count r c g in omega (arith, items_from-depth next d n.0 n.1 h)
  build-depth next d Kind.map g low h =
      let n = draw_count r c g in omega (arith, pairs_from-depth next d 0 n.0 n.1 low h)
  build-depth next d Kind.set g low h =
      let n = draw_count r c g in
      omega (arith, set_from-depth next d 0 n.0 nil n.1 low h (omega arith))
  build-depth next d _ g low h = omega (arith, low)

  leaf-depth :
      (next : r.Gen → Frame × r.Gen) (kind : Kind) (g : r.Gen)
      → is_leaf kind ≡ true
      → depth (build r c next kind g).0 ≤ 1
  unfolding build depth
  leaf-depth next Kind.array g h = cc
  leaf-depth next Kind.map g h = cc
  leaf-depth next Kind.set g h = cc
  leaf-depth next _ g h = omega arith

  if-depth :
      (b : Bool) (x y : Frame) (d : ℕ) → depth x ≤ d → depth y ≤ d → depth (if b then x else y) ≤ d
  if-depth true x y d h k = h
  if-depth false x y d h k = k

  sideband_frame-depth : (n : ℕ) → depth (sideband_frame r c n) ≤ 2
  unfolding sideband_frame depth
  sideband_frame-depth zero = omega arith
  sideband_frame-depth (suc n) = omega arith

  violation_of-depth :
      (sideband : Bool) (n : ℕ) → depth (violation_of r c sideband n) ≤ (if sideband then 2 else 1)
  unfolding violation_of depth
  violation_of-depth true n = if-depth (n == 0) _ _ 2 (omega arith) (
      if-depth (n == 1) _ _ 2 (omega arith) (
        if-depth (n == 2) _ _ 2 (omega arith)
          (if-depth (n == 3 || n == 4) _ _ 2 (sideband_frame-depth (n - 3)) (omega arith))))
  violation_of-depth false n =
      if-depth (n == 0) _ _ 1 (omega arith) (
        if-depth (n == 1) _ _ 1 (omega arith) (if-depth (n == 2) _ _ 1 (omega arith) (omega arith)))

  violation-depth : (levels : ℕ) (g : r.Gen) → depth (violation r c levels g).0 ≤ suc levels
  unfolding violation
  violation-depth zero g = violation_of-depth false (r.gen_range 0 (3 + is_resp2 c.protocol) g).0
  violation-depth (suc levels) g =
      let positive : ltb 0 (suc levels) ≡ true = ground arith in
      rw positive
        (omega (arith, violation_of-depth true (r.gen_range 0 (5 + is_resp2 c.protocol) g).0))

  bottom_kinds :
      (p : Protocol) → all is_leaf (take (length (kinds_of p) - aggregates p) (kinds_of p)) ≡ true
  bottom_kinds resp2 = refl
  bottom_kinds resp3 = refl

  some_kinds : (p : Protocol) → 0 < length (kinds_of p) - aggregates p
  some_kinds resp2 = omega arith
  some_kinds resp3 = omega arith

  -- At the bottom the drawn kind holds no frames.
  bottom-depth :
      (next : r.Gen → Frame × r.Gen) (g : r.Gen) → depth (valid_frame r c next zero g).0 ≤ 1
  unfolding valid_frame
  bottom-depth next g =
      let n = length (kinds_of c.protocol) - aggregates c.protocol in
      let d = r.gen_range 0 n g in
      let (low, high) = r.gen_range_bounds 0 n g (some_kinds c.protocol) in
      leaf-depth next (get_or (kinds_of c.protocol) d.0 Kind.string) d.1 (
        all-get_or is_leaf (kinds_of c.protocol) n d.0 Kind.string (bottom_kinds c.protocol) high
          (omega arith))

  chosen-depth :
      (next : r.Gen → Frame × r.Gen) (levels : ℕ) (g : r.Gen)
      → ((g' : r.Gen) → depth (valid_frame r c next levels g').0 ≤ suc levels)
      → depth (choose_frame r c next levels g).0 ≤ suc levels
  unfolding choose_frame
  chosen-depth next levels g h = elim (Bool-cases (violate r c g).0) [
    | inl bad ↦ rw bad (violation-depth levels (violate r c g).1)
    | inr fine ↦ rw fine (h (violate r c g).1)
  ]

  frame_at-depth : (levels : ℕ) (g : r.Gen) → depth (frame_at r c levels g).0 ≤ suc levels
  unfolding frame_at valid_frame
  frame_at-depth zero g = chosen-depth (nothing r c) zero g (λ g'. bottom-depth (nothing r c) g')
  frame_at-depth (suc levels) g = chosen-depth (frame_at r c levels) (suc levels) g (λ g'.
      let d = r.gen_range 0 (available r c (suc levels)) g' in
      build-depth (frame_at r c levels) (suc levels) (get_or (kinds_of c.protocol) d.0 Kind.string)
        d.1 (omega arith) (frame_at-depth levels))

  -- Whatever is drawn, a generated frame is at most three levels deep, violations included.
  pub draw_frame-depth : (g : r.Gen) → depth (draw_frame r c g).0 ≤ 3
  unfolding draw_frame
  draw_frame-depth g = frame_at-depth 2 g
