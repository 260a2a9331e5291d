-- ===== src/Cluster/Redirect.antt =====
-- src/cluster.rs: `ClusterRedirectionMap`, and src/cli.rs: `TcpEndpoint::from_str`. A map is the
-- function that looks a key up.
use evilresp.Base.Bytes.{Bytes, equal}
use evilresp.Base.Decimal.{parse_unsigned}
use evilresp.Base.Options.{bind}
use evilresp.Base.{
  ℕ, ◌^◌, Bool, false, ◌&&◌, List, [], ◌∷◌, ◌++◌, Option, none, some, drop, ◌==◌, if◌then◌else◌,
}
use evilresp.Cluster.{
  TcpEndpoint, LocalNode, LocalSlotRange, connect_addr, socket_addr_to_endpoint, starts_with_byte,
}

abbrev pub or_else : {A : Type 0} → Option A → Option A → Option A
or_else none other = other
or_else (some a) other = some a

-- `split_once("]:")`, at the first occurrence.
unfoldable pub split_bracket : Bytes → Option (Bytes × Bytes)
split_bracket [] = none
split_bracket (c ∷ cs) =
    let rest = split_bracket cs in
    if c == b']' && starts_with_byte b':' cs
    then some ([], drop 1 cs)
    else (bind rest λ (host, port). some (c ∷ host, port))

-- `rsplit_once(':')`, at the last occurrence.
unfoldable pub rsplit_colon : Bytes → Option (Bytes × Bytes)
rsplit_colon [] = none
rsplit_colon (c ∷ cs) =
    or_else (bind (rsplit_colon cs) λ (host, port). some (c ∷ host, port))
      (if c == b':' then some ([], cs) else none)

unfoldable pub endpoint_of : Bytes × Bytes → Option TcpEndpoint
endpoint_of (host, port) =
    bind (parse_unsigned (2 ^ 16) port)
      λ p. if equal host [] then none else some (record { host = host; port = p })

-- `TcpEndpoint::from_str`.
unfoldable pub parse_endpoint : Bytes → Option TcpEndpoint
unfolding split_bracket rsplit_colon endpoint_of
parse_endpoint [] = none
parse_endpoint (c ∷ cs) =
    if c == b'['
    then bind (split_bracket cs) endpoint_of
    else bind (rsplit_colon (c ∷ cs)) endpoint_of

pub record ClusterRedirectionMap : Type 0 where
  pub local_by_upstream : Bytes → Option Bytes
  pub local_by_unique_upstream_port : ℕ → Option Bytes
  pub local_by_node_id : Bytes → Option Bytes

-- The two maps that `from_mappings` fills.
pub record Filled : Type 0 where
  pub by_upstream : Bytes → Option Bytes
  pub by_port : ℕ → Option (Option Bytes)

abbrev pub unfilled : Filled
unfilled = record { by_upstream = λ key. none; by_port = λ port. none }

-- `and_modify` and `or_insert`: another local endpoint makes the port ambiguous.
unfoldable pub meet : Option (Option Bytes) → Bytes → Option (Option Bytes)
meet none local = some (some local)
meet (some none) local = some none
meet (some (some existing)) local = if equal existing local then some (some existing) else some none

unfoldable pub fill : TcpEndpoint × Bytes → Filled → Filled
unfolding meet connect_addr
fill (upstream, local) m = record {
  by_upstream = λ key. if equal key (connect_addr upstream) then some local else m.by_upstream key;
  by_port = λ port. if port == upstream.port then meet (m.by_port port) local else m.by_port port;
}

unfoldable pub fill_all : List (TcpEndpoint × Bytes) → Filled → Filled
unfolding fill
fill_all [] m = m
fill_all (p ∷ ps) m = fill_all ps (fill p m)

-- `filter_map`: the ports that are not ambiguous.
abbrev pub settled : Option (Option Bytes) → Option Bytes
settled none = none
settled (some local) = local

unfoldable pub from_mappings : List (TcpEndpoint × Bytes) → ClusterRedirectionMap
unfolding fill_all
from_mappings mappings =
    let m = fill_all mappings unfilled in
    record {
      local_by_upstream = m.by_upstream;
      local_by_unique_upstream_port = λ port. settled (m.by_port port);
      local_by_node_id = λ id. none;
    }

-- `LocalSlotRange::nodes` of all ranges.
abbrev pub nodes_of : List LocalSlotRange → List LocalNode
nodes_of [] = []
nodes_of (slot ∷ slots) = (slot.primary ∷ slot.replicas) ++ nodes_of slots

abbrev pub local_text : LocalNode → Bytes
local_text node = connect_addr (socket_addr_to_endpoint node.local)

abbrev pub mappings_of : List LocalNode → List (TcpEndpoint × Bytes)
mappings_of [] = []
mappings_of (node ∷ nodes) = (node.upstream, local_text node) ∷ mappings_of nodes

abbrev pub same_id : Bytes → Option Bytes → Bool
same_id id none = false
same_id id (some other) = equal id other

-- The loop over the identifiers; a later node replaces an earlier one.
unfoldable pub fill_ids : List LocalNode → (Bytes → Option Bytes) → Bytes → Option Bytes
fill_ids [] found = found
fill_ids (node ∷ nodes) found =
    fill_ids nodes (λ id. if same_id id node.node_id then some (local_text node) else found id)

unfoldable pub from_slot_ranges : List LocalSlotRange → ClusterRedirectionMap
unfolding from_mappings fill_ids
from_slot_ranges slots =
    let nodes = nodes_of slots in
    let m = from_mappings (mappings_of nodes) in
    record m { local_by_node_id = fill_ids nodes m.local_by_node_id }

abbrev pub by_server :
    ClusterRedirectionMap → Option TcpEndpoint → Option (Bytes × Bytes) → Option Bytes
by_server m (some endpoint) parts =
    or_else (m.local_by_upstream (connect_addr endpoint))
      (m.local_by_unique_upstream_port endpoint.port)
by_server m none none = none
by_server m none (some (host, port)) =
    bind (parse_unsigned (2 ^ 16) port) m.local_by_unique_upstream_port

unfoldable pub rewrite_server : ClusterRedirectionMap → Bytes → Option Bytes
unfolding parse_endpoint rsplit_colon
rewrite_server m server = by_server m (parse_endpoint server) (rsplit_colon server)

unfoldable pub rewrite_node : ClusterRedirectionMap → Option Bytes → Bytes → Option Bytes
unfolding rewrite_server
rewrite_node m none server = rewrite_server m server
rewrite_node m (some id) server = or_else (m.local_by_node_id id) (rewrite_server m server)
