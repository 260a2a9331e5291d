-- ===== src/Cluster/Allocate.antt =====
-- src/cluster.rs: `map_cluster_slots`. A map is the list of what was inserted, the last one first.
use evilresp.Base.Bytes.{Bytes, equal}
use evilresp.Base.Options.{bind}
use evilresp.Base.{
  ◌+◌, ◌^◌, Bool, false, not, ◌&&◌, List, [], ◌∷◌, ◌++◌, Option, none, some, length, ltb, ◌==◌,
  if◌then◌else◌,
}
use evilresp.Cluster.{
  SocketAddr, LocalNode, LocalSlotRange, ProxyTarget, connect_addr, socket_addr_to_endpoint,
}

-- `BTreeMap::get`.
unfoldable pub lookup : {V : Type 0} → Bytes → List (Bytes × V) → Option V
lookup key [] = none
lookup key ((k, v) ∷ entries) =
    let rest = lookup key entries in if equal key k then some v else rest

abbrev pub same_addr : SocketAddr → SocketAddr → Bool
same_addr a b = equal a.ip b.ip && a.port == b.port

unfoldable pub id_at : SocketAddr → List (SocketAddr × Bytes) → Option Bytes
id_at local [] = none
id_at local ((k, id) ∷ entries) =
    let rest = id_at local entries in if same_addr local k then some id else rest

pub record Allocated : Type 0 where
  pub by_upstream : List (Bytes × SocketAddr)
  pub by_node_id : List (Bytes × SocketAddr)
  pub id_by_local : List (SocketAddr × Bytes)
  pub targets : List ProxyTarget

abbrev pub nothing_yet : Allocated
nothing_yet = record { by_upstream = []; by_node_id = []; id_by_local = []; targets = [] }

-- The node's identifier is stored with its address.
abbrev pub with_id : Option Bytes → SocketAddr → Allocated → Allocated
with_id none local s = s
with_id (some id) local s = record s {
  by_node_id = (id, local) ∷ s.by_node_id;
  id_by_local = (local, id) ∷ s.id_by_local;
}

abbrev pub with_upstream : Bytes → SocketAddr → Allocated → Allocated
with_upstream key local s = record s { by_upstream = (key, local) ∷ s.by_upstream }

-- Another identifier stands at this address.
abbrev pub other_id : Option Bytes → Option Bytes → Bool
other_id (some existing) (some id) = not (equal existing id)
other_id _ _ = false

unfoldable pub known : LocalNode → SocketAddr → Allocated → Option Allocated
unfolding id_at connect_addr
known node local s =
    if other_id (id_at local s.id_by_local) node.node_id
    then none
    else some (with_id node.node_id local (with_upstream (connect_addr node.upstream) local s))

-- The next port behind the listener's, within 16 bits.
unfoldable pub fresh : SocketAddr → LocalNode → Allocated → Option Allocated
unfolding connect_addr
fresh listen node s =
    let offset = length s.targets in
    let local : SocketAddr = record listen { port = listen.port + offset } in
    if ltb offset (2 ^ 16) && ltb (listen.port + offset) (2 ^ 16)
    then some (
        with_id node.node_id local (
          with_upstream (connect_addr node.upstream) local (record s {
            targets =
                s.targets
                ++ record { upstream = node.upstream; listen = socket_addr_to_endpoint local } ∷ [];
          })))
    else none

unfoldable pub by_id_of : Option Bytes → List (Bytes × SocketAddr) → Option SocketAddr
unfolding lookup
by_id_of none entries = none
by_id_of (some id) entries = lookup id entries

-- What is known of the node by its endpoint and by its identifier.
unfoldable pub placed :
    SocketAddr → LocalNode → Option SocketAddr → Option SocketAddr → Allocated → Option Allocated
unfolding known fresh
placed listen node (some endpoint) (some id) s =
    if same_addr endpoint id then known node id s else none
placed listen node none (some id) s = known node id s
placed listen node (some endpoint) none s = known node endpoint s
placed listen node none none s = fresh listen node s

unfoldable pub allocate_one : SocketAddr → LocalNode → Allocated → Option Allocated
unfolding placed lookup by_id_of connect_addr
allocate_one listen node s =
    placed listen node (lookup (connect_addr node.upstream) s.by_upstream)
      (by_id_of node.node_id s.by_node_id) s

-- The loop over the nodes.
unfoldable pub allocate : SocketAddr → List LocalNode → Allocated → Option Allocated
unfolding allocate_one
allocate listen [] s = some s
allocate listen (node ∷ nodes) s = bind (allocate_one listen node s) λ s'. allocate listen nodes s'

-- All primaries, then all replicas.
abbrev pub primaries : List LocalSlotRange → List LocalNode
primaries [] = []
primaries (slot ∷ slots) = slot.primary ∷ primaries slots

abbrev pub all_replicas : List LocalSlotRange → List LocalNode
all_replicas [] = []
all_replicas (slot ∷ slots) = slot.replicas ++ all_replicas slots

-- `local_by_upstream[..]`, which panics where the endpoint is missing.
unfoldable pub relocated : List (Bytes × SocketAddr) → LocalNode → Option LocalNode
unfolding lookup connect_addr
relocated by_upstream node =
    bind (lookup (connect_addr node.upstream) by_upstream)
      λ local. some (record node { local = local })

unfoldable pub relocated_nodes :
    List (Bytes × SocketAddr) → List LocalNode → Option (List LocalNode)
unfolding relocated
relocated_nodes by_upstream [] = some []
relocated_nodes by_upstream (node ∷ nodes) =
    bind (relocated by_upstream node)
      λ n. bind (relocated_nodes by_upstream nodes) λ ns. some (n ∷ ns)

unfoldable pub relocated_slots :
    List (Bytes × SocketAddr) → List LocalSlotRange → Option (List LocalSlotRange)
unfolding relocated_nodes
relocated_slots by_upstream [] = some []
relocated_slots by_upstream (slot ∷ slots) = bind (relocated by_upstream slot.primary) λ p.
    bind (relocated_nodes by_upstream slot.replicas) λ rs.
      bind (relocated_slots by_upstream slots)
        λ ss. some (record slot { primary = p; replicas = rs } ∷ ss)

pub data Mapping : Type 0 where
  refused panicked : Mapping
  cluster : List ProxyTarget → List LocalSlotRange → Mapping

abbrev pub mapping_of : List ProxyTarget → Option (List LocalSlotRange) → Mapping
mapping_of targets none = panicked
mapping_of targets (some slots) = cluster targets slots

abbrev pub mapped : List LocalSlotRange → Option Allocated → Mapping
mapped slots none = refused
mapped slots (some s) = mapping_of s.targets (relocated_slots s.by_upstream slots)

unfoldable pub map_cluster_slots : List LocalSlotRange → SocketAddr → Mapping
unfolding allocate relocated_slots
map_cluster_slots slots listen =
    if listen.port == 0
    then refused
    else mapped slots (allocate listen (primaries slots ++ all_replicas slots) nothing_yet)
