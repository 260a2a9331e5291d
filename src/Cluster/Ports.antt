-- ===== src/Cluster/Ports.antt =====
-- The listeners that are allocated to the nodes of a cluster.
use evilresp.Base.Options.{bind-eq-some, of_some}
use evilresp.Base.{
  ℕ, zero, suc, ◌+◌, ◌≡◌, refl, sym, arith, inl, inr, List, [], ◌∷◌, ◌++◌, Option, none, some,
  length, get_elem?, ◌==◌, Bool-cases,
}
use evilresp.Cluster.Allocate.{
  Allocated, nothing_yet, allocate_one, allocate, primaries, all_replicas, relocated_slots, Mapping,
  cluster, mapping_of, mapped, map_cluster_slots,
}
use evilresp.Cluster.Step.{Listens, Step, allocate_one-Step}
use evilresp.Cluster.{LocalNode, LocalSlotRange, ProxyTarget, SocketAddr}
use mathlib.Core.Path.{subst}

module _ (listen : SocketAddr) where
  -- Consecutive ports from an offset on.
  abbrev pub Numbered : ℕ → List ProxyTarget → Type 0
  Numbered i [] = Unit
  Numbered i (t ∷ ts) = Listens listen i t × Numbered (suc i) ts

  Numbered-append :
      (i : ℕ) (ts : List ProxyTarget) (t : ProxyTarget)
      → Numbered i ts
      → Listens listen (i + length ts) t
      → Numbered i (ts ++ t ∷ [])
  Numbered-append i [] t n l =
      let same : i + 0 ≡ i = omega arith in (subst (λ k. Listens listen k t) same l, tt)
  Numbered-append i (u ∷ ts) t (first, n) l =
      let same : i + suc (length ts) ≡ suc i + length ts = omega arith in
      (first, Numbered-append (suc i) ts t n (subst (λ k. Listens listen k t) same l))

  Step-Numbered :
      (node : LocalNode) (s s' : Allocated)
      → Step listen node s s'
      → Numbered 0 s.targets
      → Numbered 0 s'.targets
  Step-Numbered node s s' step n = elim step.added [
    | inl same ↦ rw same n
    | inr (t, grown, l) ↦
        let start : 0 + length s.targets ≡ length s.targets = omega arith in
        rw grown (Numbered-append 0 s.targets t n (subst (λ k. Listens listen k t) (sym start) l))
  ]

  allocate-Numbered :
      (nodes : List LocalNode) (s : Allocated) {s' : Allocated}
      → allocate listen nodes s ≡ some s'
      → Numbered 0 s.targets
      → Numbered 0 s'.targets
  unfolding allocate
  allocate-Numbered [] s h n = of_some (λ x. Numbered 0 x.targets) h n
  allocate-Numbered (node ∷ nodes) s h n =
      let (next, one, rest) = bind-eq-some (allocate_one listen node s) _ h in
      allocate-Numbered nodes next rest
        (Step-Numbered node s next (allocate_one-Step listen node s one) n)

  Numbered-Listens :
      (i n : ℕ) (ts : List ProxyTarget) (t : ProxyTarget)
      → Numbered i ts
      → get_elem? ts n ≡ some t
      → Listens listen (i + n) t
  Numbered-Listens i n [] t h e = cc
  Numbered-Listens i zero (u ∷ ts) t (first, rest) e =
      let same : i + 0 ≡ i = omega arith in
      subst (λ k. Listens listen k t) (sym same) (of_some (Listens listen i) e first)
  Numbered-Listens i (suc n) (u ∷ ts) t (first, rest) e =
      let same : suc i + n ≡ i + suc n = omega arith in
      subst (λ k. Listens listen k t) same (Numbered-Listens (suc i) n ts t rest e)

abbrev targets_of : Mapping → List ProxyTarget
targets_of (cluster targets slots) = targets
targets_of _ = []

module _ (slots : List LocalSlotRange) (listen : SocketAddr) where
  mapped-Numbered :
      (o : Option Allocated)
      → ((s : Allocated) → o ≡ some s → Numbered listen 0 s.targets)
      → Numbered listen 0 (targets_of (mapped slots o))
  mapped-Numbered none h = tt
  mapped-Numbered (some s) h = relocated-Numbered (relocated_slots s.by_upstream slots) (h s refl)
    where
      relocated-Numbered :
          (o : Option (List LocalSlotRange))
          → Numbered listen 0 s.targets
          → Numbered listen 0 (targets_of (mapping_of s.targets o))
      relocated-Numbered none n = tt
      relocated-Numbered (some slots') n = n

  map_cluster_slots-Numbered : Numbered listen 0 (targets_of (map_cluster_slots slots listen))
  unfolding map_cluster_slots
  map_cluster_slots-Numbered = elim (Bool-cases (listen.port == 0)) [
    | inl unset ↦ rw unset tt
    | inr set ↦ rw set (
        mapped-Numbered (allocate listen (primaries slots ++ all_replicas slots) nothing_yet)
          (λ s h.
            allocate-Numbered listen (primaries slots ++ all_replicas slots) nothing_yet h tt))
  ]

  -- The listener of target `n` of a cluster has the address of the proxy and its port plus `n`, which
  -- fits in 16 bits with no wrap-around.
  pub map_cluster_slots-Listens :
      (n : ℕ) (targets : List ProxyTarget) (slots' : List LocalSlotRange) (t : ProxyTarget)
      → map_cluster_slots slots listen ≡ cluster targets slots'
      → get_elem? targets n ≡ some t
      → Listens listen n t
  map_cluster_slots-Listens n targets slots' t h e =
      let all_numbered : Numbered listen 0 targets =
        subst (λ m. Numbered listen 0 (targets_of m)) h map_cluster_slots-Numbered in
      let same : 0 + n ≡ n = omega arith in
      subst (λ k. Listens listen k t) same (Numbered-Listens listen 0 n targets t all_numbered e)
