-- ===== src/Framing/Select.antt =====
-- src/framing.rs: `select_header`, `select_weighted_header` and `tree_depth`.
use evilresp.Base.Bytes.{Bytes, codes}
use evilresp.Base.Int.{ℤ}
use evilresp.Base.{
  ℕ, suc, ◌+◌, ◌-◌, List, [], ◌∷◌, Option, none, some, max, ltb, ◌==◌, if◌then◌else◌,
}
use evilresp.Framing.Config.{Target, any, matches}
use evilresp.Framing.Visit.{Visited, visit}
use evilresp.Mutation.{MutationDepth, weight}
use evilresp.Mutation
use evilresp.Random.{Random}
use evilresp.Resp.Encode.{declared_length}
use evilresp.Resp.Frame.{Frame}

pub record Header : Type 0 where
  pub index : ℕ
  pub path : Bytes
  pub original : ℤ

-- The header of the frame that is visited as number `i`, if it declares a length.
abbrev pub header_at : ℕ → Visited → Option ℤ → Option Header
header_at i v none = none
header_at i v (some z) = some record { index = i; path = v.path; original = z }

abbrev pub candidate : Target → ℕ → Visited → Option Header
candidate target i v =
    if matches target v.path then header_at i v (declared_length v.frame) else none

unfoldable pub deepest : ℕ → List Visited → ℕ
deepest d [] = d
deepest d (v ∷ vs) = deepest (max d v.depth) vs

unfoldable pub tree_depth : Frame → ℕ
unfolding deepest visit
tree_depth f = deepest 0 (visit (codes "root") 0 f)

abbrev pub weight_of : MutationDepth → ℕ → Option ℤ → ℕ
weight_of depth level none = 0
weight_of depth level (some z) = weight depth level

-- The first loop of `select_weighted_header`.
unfoldable pub total_weight : MutationDepth → List Visited → ℕ
total_weight depth [] = 0
total_weight depth (v ∷ vs) =
    weight_of depth v.depth (declared_length v.frame) + total_weight depth vs

-- The second loop, from visit `i` on.
unfoldable pub weighted_header : MutationDepth → ℕ → ℕ → List Visited → Option Header
weighted_header depth i remaining [] = none
weighted_header depth i remaining (v ∷ vs) =
    let w = weight_of depth v.depth (declared_length v.frame) in
    let rest = weighted_header depth (suc i) (remaining - w) vs in
    if ltb remaining w then header_at i v (declared_length v.frame) else rest

module _ (r : Random) where
  open r use {Gen, gen_range}

  unfoldable pub select_weighted_header : Frame → MutationDepth → Gen → Option Header × Gen
  unfolding total_weight weighted_header visit
  select_weighted_header f depth g =
      let visits = visit (codes "root") 0 f in
      let total = total_weight depth visits in
      let (remaining, g') = gen_range 0 total g in
      if total == 0 then (none, g) else (weighted_header depth 0 remaining visits, g')

  -- What the reservoir keeps of its choice and a new candidate, the `n`-th; the first is kept
  -- without a draw.
  unfoldable pub keep : ℕ → Option Header → Header → Gen → Option Header × Gen
  keep n selected h g =
      let (k, g') = gen_range 0 n g in
      if n == 1 then (some h, g) else (if k == 0 then some h else selected, g')

  -- One visit: the candidates so far, and the choice.
  unfoldable pub offer : ℕ → Option Header → Option Header → Gen → ℕ × Option Header × Gen
  unfolding keep
  offer candidates selected none g = (candidates, selected, g)
  offer candidates selected (some h) g =
      let (next, g') = keep (suc candidates) selected h g in (suc candidates, next, g')

  -- The loop of `select_header`, from visit `i` on.
  unfoldable pub reservoir :
      Target → ℕ → ℕ → Option Header → List Visited → Gen → Option Header × Gen
  unfolding offer
  reservoir target i candidates selected [] g = (selected, g)
  reservoir target i candidates selected (v ∷ vs) g =
      let (candidates', selected', g') = offer candidates selected (candidate target i v) g in
      reservoir target (suc i) candidates' selected' vs g'

  -- `select_header`.
  unfoldable pub select_header : Frame → Target → MutationDepth → Gen → Option Header × Gen
  unfolding reservoir select_weighted_header visit
  select_header f any Mutation.MutationDepth.inner g =
      select_weighted_header f Mutation.MutationDepth.inner g
  select_header f target depth g = reservoir target 0 0 none (visit (codes "root") 0 f) g
