-- ===== src/Cluster/Tests.antt =====
-- A run of the mapping of a cluster.
use evilresp.Base.Bytes.{codes, equal}
use evilresp.Base.Decimal.{decimal}
use evilresp.Base.{arith, ℕ, ◌≡◌, ◌≢◌, refl, List, [], ◌∷◌, none, some}
use evilresp.Cluster.Allocate.{
  lookup, allocate_one, allocate, placed, fresh, known, by_id_of, relocated, relocated_nodes,
  relocated_slots, panicked, cluster, map_cluster_slots,
}
use evilresp.Base.Bytes.{Bytes}
use evilresp.Base.Utf8.{is_utf8, from_utf8_lossy, from_utf8_lossy-is_utf8}
use evilresp.Cluster.Local.{
  unique, locals_at, from_mappings-unique, IsListener, rewrite_node-IsListener,
}
use evilresp.Cluster.Redirect.{
  from_mappings, fill_all, fill, meet, fill_ids, from_slot_ranges, rewrite_node, rewrite_server,
  parse_endpoint, split_bracket, rsplit_colon, endpoint_of, nodes_of,
}
use evilresp.Base.Decimal.{parse_unsigned}
use evilresp.Cluster.Answer.{local_slots_response}
use evilresp.Cluster.Answer
use evilresp.Cluster.Seen.{
  IsNode, parse_reply, seen_slots, parse_cluster_slots-local_slots_response,
}
use evilresp.Cluster.Ports.{map_cluster_slots-Listens}
use evilresp.Cluster.Registered.{map_cluster_slots-ne-panicked}
use evilresp.Cluster.Step.{Listens}
use evilresp.Cluster.{TcpEndpoint, SocketAddr, LocalNode, LocalSlotRange, ProxyTarget, connect_addr}

abbrev at_port : ℕ → SocketAddr
at_port port = record { ip = codes "127.0.0.1"; port = port }

abbrev endpoint : ℕ → TcpEndpoint
endpoint port = record { host = codes "h"; port = port }

abbrev node : ℕ → ℕ → LocalNode
node port local = record { upstream = endpoint port; local = at_port local; node_id = none }

-- A primary, its replica, and a second range with the same primary.
abbrev slots : ℕ → ℕ → List LocalSlotRange
slots a b =
    record { start = 0; end = 99; primary = node 7000 a; replicas = node 7001 b ∷ [] }
    ∷ record { start = 100; end = 200; primary = node 7000 a; replicas = [] }
    ∷ []

abbrev listening : ℕ → ℕ → ProxyTarget
listening port local = record {
  upstream = endpoint port;
  listen = record { host = codes "127.0.0.1"; port = local };
}

abbrev two_targets : List ProxyTarget
two_targets = listening 7000 6400 ∷ listening 7001 6401 ∷ []

map_cluster_slots-two :
    map_cluster_slots (slots 0 0) (at_port 6400) ≡ cluster two_targets (slots 6400 6401)
unfolding map_cluster_slots allocate allocate_one placed fresh known by_id_of lookup relocated_slots
    relocated_nodes relocated connect_addr equal decimal
map_cluster_slots-two = refl

map_cluster_slots-Listens_example : Listens (at_port 6400) 1 (listening 7001 6401)
map_cluster_slots-Listens_example =
    map_cluster_slots-Listens (slots 0 0) (at_port 6400) 1 two_targets (slots 6400 6401)
      (listening 7001 6401) map_cluster_slots-two refl

map_cluster_slots-ne-panicked_example : map_cluster_slots (slots 0 0) (at_port 6400) ≢ panicked
map_cluster_slots-ne-panicked_example = map_cluster_slots-ne-panicked (slots 0 0) (at_port 6400)

-- Two upstream nodes with port 7000 and different listeners.
abbrev disagreeing : List (TcpEndpoint × Bytes)
disagreeing =
    (record { host = codes "a"; port = 7000 }, codes "x")
    ∷ (record { host = codes "b"; port = 7000 }, codes "y")
    ∷ []

from_mappings-unique_example :
    (from_mappings disagreeing).local_by_unique_upstream_port 7000
    ≡ unique (locals_at 7000 disagreeing)
from_mappings-unique_example = from_mappings-unique disagreeing 7000

rewrite_node-unknown_host :
    rewrite_node (from_slot_ranges (slots 6400 6401)) none (codes "other:7001")
    ≡ some (codes "127.0.0.1:6401")
unfolding rewrite_node rewrite_server parse_endpoint split_bracket rsplit_colon endpoint_of
    from_slot_ranges from_mappings fill_all fill meet fill_ids connect_addr parse_unsigned decimal
    equal
rewrite_node-unknown_host = refl

rewrite_node-IsListener_example : IsListener (nodes_of (slots 6400 6401)) (codes "127.0.0.1:6401")
rewrite_node-IsListener_example =
    rewrite_node-IsListener (slots 6400 6401) none (codes "other:7001") (codes "127.0.0.1:6401")
      rewrite_node-unknown_host

-- A primary at an IPv6 listener, and its replica with an identifier.
abbrev ipv6_primary : LocalNode
ipv6_primary = record {
  upstream = endpoint 7000;
  local = record { ip = codes "::1"; port = 6400 };
  node_id = none;
}

abbrev named_replica : LocalNode
named_replica = record (node 7001 6401) { node_id = some (codes "abc") }

abbrev one_range : List LocalSlotRange
one_range =
    record { start = 0; end = 16383; primary = ipv6_primary; replicas = named_replica ∷ [] } ∷ []

ipv6_primary-IsNode : IsNode ipv6_primary
unfolding is_utf8
ipv6_primary-IsNode = record {
  utf8 = refl;
  named = λ e. cc e;
  known = λ e. cc e;
  port = omega arith;
  id = λ e. cc e;
}

named_replica-IsNode : IsNode named_replica
unfolding is_utf8
named_replica-IsNode = record {
  utf8 = refl;
  named = λ e. cc e;
  known = λ e. cc e;
  port = omega arith;
  id = λ e. cc e;
}

parse_cluster_slots-local_slots_response_example :
    parse_reply from_utf8_lossy from_utf8_lossy-is_utf8
      (endpoint 1)
      (local_slots_response (Answer.Topology.cluster two_targets one_range))
    ≡ some (seen_slots one_range)
parse_cluster_slots-local_slots_response_example =
    parse_cluster_slots-local_slots_response from_utf8_lossy from_utf8_lossy-is_utf8 (endpoint 1)
      two_targets one_range
      (
        record {
          start = omega arith;
          end = omega arith;
          primary = ipv6_primary-IsNode;
          replicas = (named_replica-IsNode, tt);
        },
        tt,
      )
