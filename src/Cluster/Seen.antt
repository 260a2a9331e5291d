-- ===== src/Cluster/Seen.antt =====
-- How a client reads the reply of `Cluster/Answer`.
use evilresp.Base.Bytes.{Bytes, codes, equal-false}
use evilresp.Base.Decimal.{decimal}
use evilresp.Base.Utf8.{is_utf8}
use evilresp.Base.{
  ℕ, ◌^◌, ◌<◌, ◌≡◌, ◌≢◌, refl, ap, arith, true, List, [], ◌∷◌, ◌++◌, Option, none, some, All, ltb,
}
use evilresp.Cluster.Answer.{
  cluster, id_or, node_frame, node_frames, range_frame, range_frames, local_slots_response,
}
use evilresp.Cluster.{
  TcpEndpoint, LocalNode, LocalSlotRange, ProxyTarget, text_or, host_of, id_of, as_slot, parse_node,
  parse_nodes, parse_slot_range, parse_cluster_slots, not_empty,
}
use evilresp.Resp.Frame.{Frame, array}

-- The identifier that a client finds: the given one, or one made of the port.
abbrev pub seen_id : Option Bytes → ℕ → Bytes
seen_id none port = codes "evilresp-" ++ decimal port
seen_id (some id) port = id

-- The node that a client finds in the reply: the listener, with an identifier.
abbrev pub seen_node : LocalNode → LocalNode
seen_node node = record {
  upstream = record { host = node.local.ip; port = node.local.port };
  local = record { ip = codes "127.0.0.1"; port = 0 };
  node_id = some (seen_id node.node_id node.local.port);
}

abbrev pub seen_nodes : List LocalNode → List LocalNode
seen_nodes [] = []
seen_nodes (node ∷ nodes) = seen_node node ∷ seen_nodes nodes

abbrev pub seen_slots : List LocalSlotRange → List LocalSlotRange
seen_slots [] = []
seen_slots (slot ∷ slots) =
    record slot { primary = seen_node slot.primary; replicas = seen_nodes slot.replicas }
    ∷ seen_slots slots

-- The address is UTF-8 text other than "" and "?", the port fits in 16 bits, a given identifier is
-- not empty.
pub record IsNode (node : LocalNode) : Type 0 where
  pub utf8 : is_utf8 node.local.ip ≡ true
  pub named : node.local.ip ≢ []
  pub known : node.local.ip ≢ codes "?"
  pub port : node.local.port < 2 ^ 16
  pub id : node.node_id ≢ some []

pub record IsRange (slot : LocalSlotRange) : Type 0 where
  pub start : slot.start < 2 ^ 16
  pub end : slot.end < 2 ^ 16
  pub primary : IsNode slot.primary
  pub replicas : All IsNode slot.replicas

text_or-known : (text other : Bytes) → text ≢ [] → text ≢ codes "?" → text_or text other ≡ text
text_or-known text other named known =
    rw (equal-false text [] named, equal-false text (codes "?") known) refl

-- `String::from_utf8_lossy` keeps text that is UTF-8.
abbrev pub KeepsUtf8 : (Bytes → Bytes) → Type 0
KeepsUtf8 lossy = (bytes : Bytes) → is_utf8 bytes ≡ true → lossy bytes ≡ bytes

module _ (lossy : Bytes → Bytes) (keeps : KeepsUtf8 lossy) (bootstrap : TcpEndpoint) where
  not_empty-cons : (id : Bytes) → id ≢ [] → not_empty lossy bootstrap (some id) ≡ some id
  not_empty-cons [] h = absurd (h refl)
  not_empty-cons (b ∷ bs) h = refl

  not_empty-id_or :
      (node : LocalNode) (id : Option Bytes)
      → id ≢ some []
      → not_empty lossy bootstrap (some (id_or id node)) ≡ some (seen_id id node.local.port)
  not_empty-id_or node none h = refl
  not_empty-id_or node (some id) h = not_empty-cons id (λ e. h (ap some e))

  parse_node-seen :
      (node : LocalNode)
      → IsNode node
      → parse_node lossy bootstrap (node_frame node) ≡ some (seen_node node)
  unfolding parse_node node_frame host_of as_slot id_of
  parse_node-seen node h =
      let small : ltb node.local.port (2 ^ 16) ≡ true = ground (arith, h.port) in
      let address : text_or (lossy node.local.ip) bootstrap.host ≡ node.local.ip =
        rw (keeps node.local.ip h.utf8)
          (text_or-known node.local.ip bootstrap.host h.named h.known) in
      rw (address, small, not_empty-id_or node node.node_id h.id) refl

  parse_nodes-seen :
      (nodes : List LocalNode)
      → All IsNode nodes
      → parse_nodes lossy bootstrap (node_frames nodes) ≡ some (seen_nodes nodes)
  unfolding parse_nodes node_frames
  parse_nodes-seen [] a = refl
  parse_nodes-seen (node ∷ nodes) (first, rest) =
      rw (parse_node-seen node first, parse_nodes-seen nodes rest) refl

  parse_slot_range-seen :
      (slot : LocalSlotRange)
      → IsRange slot
      → parse_slot_range lossy bootstrap (range_frame slot)
        ≡ some
            (record slot { primary = seen_node slot.primary; replicas = seen_nodes slot.replicas })
  unfolding parse_slot_range range_frame node_frames as_slot
  parse_slot_range-seen slot h =
      let start_fits : ltb slot.start (2 ^ 16) ≡ true = ground (arith, h.start) in
      let end_fits : ltb slot.end (2 ^ 16) ≡ true = ground (arith, h.end) in
      rw
        (
          start_fits,
          end_fits,
          parse_node-seen slot.primary h.primary,
          parse_nodes-seen slot.replicas h.replicas,
        )
        refl

  parse_cluster_slots-seen :
      (slots : List LocalSlotRange)
      → All IsRange slots
      → parse_cluster_slots lossy bootstrap (range_frames slots) ≡ some (seen_slots slots)
  unfolding parse_cluster_slots range_frames
  parse_cluster_slots-seen [] a = refl
  parse_cluster_slots-seen (slot ∷ slots) (first, rest) =
      rw (parse_slot_range-seen slot first, parse_cluster_slots-seen slots rest) refl

  -- The items of a reply.
  abbrev pub parse_reply : Option Frame → Option (List LocalSlotRange)
  parse_reply (some (array items)) = parse_cluster_slots lossy bootstrap items
  parse_reply _ = none

  -- A client that parses the proxy's own reply to CLUSTER SLOTS finds every range with its bounds and
  -- every node, in order, at its local listener and with its identifier or else one made of the port,
  -- where slots and ports fit in 16 bits, addresses are UTF-8 text other than "" and "?", no given
  -- identifier is empty, and the client's lossy decoding keeps UTF-8 text.
  pub parse_cluster_slots-local_slots_response :
      (targets : List ProxyTarget) (slots : List LocalSlotRange)
      → All IsRange slots
      → parse_reply (local_slots_response (cluster targets slots)) ≡ some (seen_slots slots)
  unfolding local_slots_response
  parse_cluster_slots-local_slots_response targets slots a = parse_cluster_slots-seen slots a
