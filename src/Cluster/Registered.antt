-- ===== src/Cluster/Registered.antt =====
-- Every node finds its endpoint among those that were allocated.
use evilresp.Base.Bytes.{Bytes, equal, equal_refl}
use evilresp.Base.Options.{bind, bind-eq-some, of_some}
use evilresp.Base.{
  ◌≡◌, ◌≢◌, refl, sym, inl, inr, List, [], ◌∷◌, ◌++◌, Option, none, some, All, ◌==◌, Bool-cases,
}
use evilresp.Cluster.Allocate.{
  lookup, Allocated, nothing_yet, allocate_one, allocate, primaries, all_replicas, relocated,
  relocated_nodes, relocated_slots, panicked, mapped, map_cluster_slots,
}
use evilresp.Cluster.Step.{Step, allocate_one-Step}
use evilresp.Cluster.{LocalNode, LocalSlotRange, SocketAddr, connect_addr}
use mathlib.Core.Path.{subst}

abbrev Entries : Type 0
Entries = List (Bytes × SocketAddr)

abbrev HasKey : Entries → LocalNode → Type 0
HasKey entries node =
    (local : SocketAddr) × (lookup (connect_addr node.upstream) entries ≡ some local)

later-HasKey :
    (entries : Entries) (key : Bytes) (local : SocketAddr) (node : LocalNode)
    → HasKey entries node
    → HasKey ((key, local) ∷ entries) node
unfolding lookup
later-HasKey entries key local node (found, at) =
    elim (Bool-cases (equal (connect_addr node.upstream) key)) [
      | inl same ↦ (local, rw same refl)
      | inr other ↦ (found, rw other at)
    ]

first-HasKey :
    (entries : Entries) (local : SocketAddr) (node : LocalNode)
    → HasKey ((connect_addr node.upstream, local) ∷ entries) node
unfolding lookup
first-HasKey entries local node = (local, rw (equal_refl (connect_addr node.upstream)) refl)

module _ (listen : SocketAddr) where
  Step-kept :
      (node other : LocalNode) (s s' : Allocated)
      → Step listen node s s'
      → HasKey s.by_upstream other
      → HasKey s'.by_upstream other
  Step-kept node other s s' step h =
      subst (λ entries. HasKey entries other) (sym step.entered)
        (later-HasKey s.by_upstream (connect_addr node.upstream) step.local other h)

  Step-HasKey :
      (node : LocalNode) (s s' : Allocated) → Step listen node s s' → HasKey s'.by_upstream node
  Step-HasKey node s s' step =
      subst (λ entries. HasKey entries node) (sym step.entered)
        (first-HasKey s.by_upstream step.local node)

  allocate-kept :
      (nodes : List LocalNode) (s : Allocated) {s' : Allocated} (other : LocalNode)
      → allocate listen nodes s ≡ some s'
      → HasKey s.by_upstream other
      → HasKey s'.by_upstream other
  unfolding allocate
  allocate-kept [] s other h k = of_some (λ x. HasKey x.by_upstream other) h k
  allocate-kept (node ∷ nodes) s other h k =
      let (next, one, rest) = bind-eq-some (allocate_one listen node s) _ h in
      allocate-kept nodes next other rest
        (Step-kept node other s next (allocate_one-Step listen node s one) k)

  allocate-HasKey :
      (nodes : List LocalNode) (s : Allocated) {s' : Allocated}
      → allocate listen nodes s ≡ some s'
      → All (HasKey s'.by_upstream) nodes
  unfolding allocate
  allocate-HasKey [] s h = tt
  allocate-HasKey (node ∷ nodes) s h =
      let (next, one, rest) = bind-eq-some (allocate_one listen node s) _ h in
      (
        allocate-kept nodes next node rest
            (Step-HasKey node s next (allocate_one-Step listen node s one)),
        allocate-HasKey nodes next rest,
      )

module _ (entries : Entries) where
  All-split :
      (xs ys : List LocalNode)
      → All (HasKey entries) (xs ++ ys)
      → All (HasKey entries) xs × All (HasKey entries) ys
  All-split [] ys a = (tt, a)
  All-split (x ∷ xs) ys (first, rest) =
      let (before, after) = All-split xs ys rest in ((first, before), after)

  -- A value for an option.
  abbrev IsSome : {A : Type 0} → Option A → Type 0
  IsSome {A} o = (a : A) × (o ≡ some a)

  bind-IsSome :
      {A B : Type 0} (o : Option A) (f : A → Option B)
      → IsSome o
      → ((a : A) → IsSome (f a))
      → IsSome (bind o f)
  bind-IsSome o f (a, e) h = rw e (h a)

  relocated-IsSome : (node : LocalNode) → HasKey entries node → IsSome (relocated entries node)
  unfolding relocated
  relocated-IsSome node h = bind-IsSome _ _ h (λ local. (record node { local = local }, refl))

  relocated_nodes-IsSome :
      (nodes : List LocalNode) → All (HasKey entries) nodes → IsSome (relocated_nodes entries nodes)
  unfolding relocated_nodes
  relocated_nodes-IsSome [] a = ([], refl)
  relocated_nodes-IsSome (node ∷ nodes) (first, rest) =
      bind-IsSome _ _ (relocated-IsSome node first)
        (λ n. bind-IsSome _ _ (relocated_nodes-IsSome nodes rest) (λ ns. (n ∷ ns, refl)))

  relocated_slots-IsSome :
      (slots : List LocalSlotRange)
      → All (HasKey entries) (primaries slots)
      → All (HasKey entries) (all_replicas slots)
      → IsSome (relocated_slots entries slots)
  unfolding relocated_slots
  relocated_slots-IsSome [] ps rs = ([], refl)
  relocated_slots-IsSome (slot ∷ slots) (first, ps) rs =
      let (own, others) = All-split slot.replicas (all_replicas slots) rs in
      bind-IsSome _ _ (relocated-IsSome slot.primary first) (λ p.
        bind-IsSome _ _ (relocated_nodes-IsSome slot.replicas own) (λ ns.
          bind-IsSome _ _ (relocated_slots-IsSome slots ps others)
            (λ ss. (record slot { primary = p; replicas = ns } ∷ ss, refl))))

module _ (slots : List LocalSlotRange) (listen : SocketAddr) where
  mapped-ne-panicked :
      (o : Option Allocated)
      → ((s : Allocated)
          → o ≡ some s
          → All (HasKey s.by_upstream) (primaries slots ++ all_replicas slots))
      → mapped slots o ≢ panicked
  mapped-ne-panicked none h = λ e. cc
  mapped-ne-panicked (some s) h =
      let (ps, rs) = All-split s.by_upstream (primaries slots) (all_replicas slots) (h s refl) in
      let (slots', made) = relocated_slots-IsSome s.by_upstream slots ps rs in rw made (λ e. cc)

  -- The last pass over the slot ranges finds the endpoint of every node in the map, replicas
  -- included, so that its indexing never panics.
  pub map_cluster_slots-ne-panicked : map_cluster_slots slots listen ≢ panicked
  unfolding map_cluster_slots
  map_cluster_slots-ne-panicked = elim (Bool-cases (listen.port == 0)) [
    | inl unset ↦ rw unset (λ e. cc)
    | inr set ↦ rw set (
        mapped-ne-panicked (allocate listen (primaries slots ++ all_replicas slots) nothing_yet)
          (λ s h. allocate-HasKey listen (primaries slots ++ all_replicas slots) nothing_yet h))
  ]
