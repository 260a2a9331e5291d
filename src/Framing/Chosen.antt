-- ===== src/Framing/Chosen.antt =====
-- The header that `select_header` chooses.
use evilresp.Base.Bytes.{codes}
use evilresp.Base.Int.{ℤ}
use evilresp.Base.{
  ℕ, suc, ◌+◌, ◌-◌, ◌≡◌, refl, sym, ◌∙◌, ap, arith, inl, inr, List, [], ◌∷◌, Option, none, some,
  ltb, ◌==◌, get_elem?, Bool-cases,
}
use evilresp.Framing.Config.{Target, any, path, matches}
use evilresp.Framing.Select.{
  Header, header_at, candidate, weight_of, total_weight, weighted_header, select_weighted_header,
  keep, offer, reservoir, select_header,
}
use evilresp.Framing.Visit.{Visited, visit}
use evilresp.Mutation.{MutationDepth, inner}
use evilresp.Mutation
use evilresp.Random.{Random}
use evilresp.Resp.Encode.{declared_length}
use evilresp.Resp.Frame.{Frame}

-- A header that is the one of a visited frame, and that its number and its path name.
pub record FoundIn (visits : List Visited) (h : Header) : Type 0 where
  pub visited : Visited
  pub found : get_elem? visits h.index ≡ some visited
  pub path_same : h.path ≡ visited.path
  pub declared : declared_length visited.frame ≡ some h.original

abbrev IfSome : (Header → Type 0) → Option Header → Type 0
IfSome P none = ℕ
IfSome P (some h) = P h

module _ (visits : List Visited) where
  header_at-FoundIn :
      (i : ℕ) (v : Visited) (o : Option ℤ)
      → declared_length v.frame ≡ o
      → get_elem? visits i ≡ some v
      → IfSome (FoundIn visits) (header_at i v o)
  header_at-FoundIn i v none d e = 0
  header_at-FoundIn i v (some z) d e = record {
    visited = v;
    found = e;
    path_same = refl;
    declared = d;
  }

  candidate-FoundIn :
      (target : Target) (i : ℕ) (v : Visited)
      → get_elem? visits i ≡ some v
      → IfSome (FoundIn visits) (candidate target i v)
  candidate-FoundIn target i v e = elim (Bool-cases (matches target v.path)) [
    | inl matched ↦ rw matched (header_at-FoundIn i v (declared_length v.frame) refl e)
    | inr other ↦ rw other 0
  ]

  -- The visits from number `i` on.
  abbrev From : ℕ → List Visited → Type 0
  From i vs = (m : ℕ) → get_elem? visits (i + m) ≡ get_elem? vs m

  From-all : From 0 visits
  From-all m = let same : 0 + m ≡ m = omega arith in ap (get_elem? visits) same

  From-first :
      (i : ℕ) (v : Visited) (vs : List Visited) → From i (v ∷ vs) → get_elem? visits i ≡ some v
  From-first i v vs from =
      let here : i + 0 ≡ i = omega arith in ap (get_elem? visits) (sym here) ∙ from 0

  From-rest : (i : ℕ) (v : Visited) (vs : List Visited) → From i (v ∷ vs) → From (suc i) vs
  From-rest i v vs from m =
      let next : suc i + m ≡ i + suc m = omega arith in ap (get_elem? visits) next ∙ from (suc m)

  weighted_header-FoundIn :
      (depth : MutationDepth) (i remaining : ℕ) (vs : List Visited)
      → From i vs
      → IfSome (FoundIn visits) (weighted_header depth i remaining vs)
  unfolding weighted_header
  weighted_header-FoundIn depth i remaining [] from = 0
  weighted_header-FoundIn depth i remaining (v ∷ vs) from =
      let w = weight_of depth v.depth (declared_length v.frame) in
      elim (Bool-cases (ltb remaining w)) [
        | inl here ↦
            rw here (header_at-FoundIn i v (declared_length v.frame) refl (From-first i v vs from))
        | inr further ↦
            rw further
              (weighted_header-FoundIn depth (suc i) (remaining - w) vs (From-rest i v vs from))
      ]

  module _ (r : Random) where
    keep-FoundIn :
        (n : ℕ) (selected : Option Header) (h : Header) (g : r.Gen)
        → IfSome (FoundIn visits) selected
        → FoundIn visits h
        → IfSome (FoundIn visits) (keep r n selected h g).0
    unfolding keep
    keep-FoundIn n selected h g s new = elim (Bool-cases (n == 1)) [
      | inl first ↦ rw first new
      | inr later ↦ elim (Bool-cases ((r.gen_range 0 n g).0 == 0)) [
        | inl drawn ↦ rw (later, drawn) new
        | inr kept ↦ rw (later, kept) s
      ]
    ]

    offer-FoundIn :
        (candidates : ℕ) (selected next : Option Header) (g : r.Gen)
        → IfSome (FoundIn visits) selected
        → IfSome (FoundIn visits) next
        → IfSome (FoundIn visits) (offer r candidates selected next g).1
    unfolding offer
    offer-FoundIn candidates selected none g s new = s
    offer-FoundIn candidates selected (some h) g s new =
        keep-FoundIn (suc candidates) selected h g s new

    reservoir-FoundIn :
        (target : Target) (i candidates : ℕ) (selected : Option Header) (vs : List Visited)
        (g : r.Gen)
        → From i vs
        → IfSome (FoundIn visits) selected
        → IfSome (FoundIn visits) (reservoir r target i candidates selected vs g).0
    unfolding reservoir
    reservoir-FoundIn target i candidates selected [] g from s = s
    reservoir-FoundIn target i candidates selected (v ∷ vs) g from s =
        reservoir-FoundIn target (suc i) _ _ vs _ (From-rest i v vs from) (
          offer-FoundIn candidates selected (candidate target i v) g s
            (candidate-FoundIn target i v (From-first i v vs from)))

module _ (r : Random) (f : Frame) where
  abbrev visits_of : List Visited
  visits_of = visit (codes "root") 0 f

  select_weighted_header-FoundIn :
      (depth : MutationDepth) (g : r.Gen)
      → IfSome (FoundIn visits_of) (select_weighted_header r f depth g).0
  unfolding select_weighted_header
  select_weighted_header-FoundIn depth g = elim (Bool-cases (total_weight depth visits_of == 0)) [
    | inl empty ↦ rw empty 0
    | inr weighty ↦
        rw weighty (weighted_header-FoundIn visits_of depth 0 _ visits_of (From-all visits_of))
  ]

  found_or_none :
      (target : Target) (depth : MutationDepth) (g : r.Gen)
      → IfSome (FoundIn visits_of) (select_header r f target depth g).0
  unfolding select_header
  found_or_none any inner g = select_weighted_header-FoundIn inner g
  found_or_none any Mutation.MutationDepth.any g =
      reservoir-FoundIn visits_of r any 0 0 none visits_of g (From-all visits_of) 0
  found_or_none (path p) depth g =
      reservoir-FoundIn visits_of r (path p) 0 0 none visits_of g (From-all visits_of) 0

  -- The header that is chosen is the one of a frame of the reply, with the number that the encoder gives this frame and with its path.
  pub select_header-FoundIn :
      (target : Target) (depth : MutationDepth) (g : r.Gen) (h : Header)
      → (select_header r f target depth g).0 ≡ some h
      → FoundIn visits_of h
  select_header-FoundIn target depth g h e = rw e at (found_or_none target depth g)
