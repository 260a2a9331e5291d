-- ===== src/Cluster/Step.antt =====
-- What the allocation of one node does to the maps and to the targets.
use evilresp.Base.Bytes.{Bytes}
use evilresp.Base.Options.{of_some}
use evilresp.Base.{
  ℕ, ◌+◌, ◌^◌, ◌<◌, ◌≡◌, ◌⊎◌, refl, arith, inl, inr, ◌&&◌, [], ◌∷◌, ◌++◌, Option, none, some,
  length, ltb, Bool-cases, &&-true,
}
use evilresp.Cluster.Allocate.{
  same_addr, id_at, Allocated, with_id, with_upstream, other_id, known, fresh, placed, allocate_one,
}
use evilresp.Cluster.{LocalNode, ProxyTarget, SocketAddr, connect_addr, socket_addr_to_endpoint}

-- The listener with this offset, within 16 bits.
pub record Listens (listen : SocketAddr) (offset : ℕ) (t : ProxyTarget) : Type 0 where
  pub endpoint :
      t.listen ≡ socket_addr_to_endpoint record { ip = listen.ip; port = listen.port + offset }
  pub fits : listen.port + offset < 2 ^ 16

-- The node's endpoint is entered, and at most one target is added, behind the others.
pub record Step (listen : SocketAddr) (node : LocalNode) (s s' : Allocated) : Type 0 where
  pub local : SocketAddr
  pub entered : s'.by_upstream ≡ (connect_addr node.upstream, local) ∷ s.by_upstream
  pub added :
      (s'.targets ≡ s.targets)
      ⊎ ((t : ProxyTarget) × (s'.targets ≡ s.targets ++ t ∷ [])
          × Listens listen (length s.targets) t)

module _ (listen : SocketAddr) (node : LocalNode) where
  entered_by_id :
      (local : SocketAddr) (id : Option Bytes) (s : Allocated)
      → Step listen node s (with_id id local (with_upstream (connect_addr node.upstream) local s))
  entered_by_id local none s = record { local = local; entered = refl; added = inl refl }
  entered_by_id local (some id) s = record { local = local; entered = refl; added = inl refl }

  known-Step :
      (local : SocketAddr) (s : Allocated) {s' : Allocated}
      → known node local s ≡ some s'
      → Step listen node s s'
  unfolding known
  known-Step local s h = elim (Bool-cases (other_id (id_at local s.id_by_local) node.node_id)) [
    | inl conflict ↦ cc (rw conflict at h)
    | inr free ↦ of_some (Step listen node s) (rw free at h) (entered_by_id local node.node_id s)
  ]

  abbrev next_target : Allocated → ProxyTarget
  next_target s = record {
    upstream = node.upstream;
    listen =
        socket_addr_to_endpoint record { ip = listen.ip; port = listen.port + length s.targets };
  }

  added_last :
      (id : Option Bytes) (s : Allocated)
      → listen.port + length s.targets < 2 ^ 16
      → (let local : SocketAddr = record listen { port = listen.port + length s.targets } in
          Step listen node s (
            with_id id local (
              with_upstream
                (connect_addr node.upstream)
                local
                (record s { targets = s.targets ++ next_target s ∷ [] }))))
  added_last none s h = record {
    local = record listen { port = listen.port + length s.targets };
    entered = refl;
    added = inr (next_target s, refl, record { endpoint = refl; fits = h });
  }
  added_last (some id) s h = record {
    local = record listen { port = listen.port + length s.targets };
    entered = refl;
    added = inr (next_target s, refl, record { endpoint = refl; fits = h });
  }

  fresh-Step :
      (s : Allocated) {s' : Allocated} → fresh listen node s ≡ some s' → Step listen node s s'
  unfolding fresh
  fresh-Step s h =
      let offset = length s.targets in
      elim (Bool-cases (ltb offset (2 ^ 16) && ltb (listen.port + offset) (2 ^ 16))) [
        | inr full ↦ cc (rw full at h)
        | inl free ↦
            let (small, fits) =
              &&-true (ltb offset (2 ^ 16)) (ltb (listen.port + offset) (2 ^ 16)) free in
            of_some (Step listen node s) (rw free at h)
              (added_last node.node_id s (ground (arith, fits)))
      ]

  placed-Step :
      (endpoint id : Option SocketAddr) (s : Allocated) {s' : Allocated}
      → placed listen node endpoint id s ≡ some s'
      → Step listen node s s'
  unfolding placed
  placed-Step (some e) (some i) s h = elim (Bool-cases (same_addr e i)) [
    | inl same ↦ known-Step i s (rw same at h)
    | inr other ↦ cc (rw other at h)
  ]
  placed-Step none (some i) s h = known-Step i s h
  placed-Step (some e) none s h = known-Step e s h
  placed-Step none none s h = fresh-Step s h

  pub allocate_one-Step :
      (s : Allocated) {s' : Allocated}
      → allocate_one listen node s ≡ some s'
      → Step listen node s s'
  unfolding allocate_one
  allocate_one-Step s h = placed-Step _ _ s h
