-- ===== src/Cluster/Answer.antt =====
-- src/cluster.rs: the reply to CLUSTER SLOTS that the proxy gives itself.
use evilresp.Base.Bytes.{Bytes, codes}
use evilresp.Base.Decimal.{decimal}
use evilresp.Base.Int.{pos}
use evilresp.Base.{List, [], ◌∷◌, ◌++◌, Option, none, some}
use evilresp.Cluster.{LocalNode, LocalSlotRange, ProxyTarget}
use evilresp.Resp.Frame.{Frame, Frames, nil, cons, integer, bulk_string, array}

pub data Topology : Type 0 where
  standalone : ProxyTarget → Topology
  cluster : List ProxyTarget → List LocalSlotRange → Topology

-- The identifier, or one made of the port.
abbrev pub id_or : Option Bytes → LocalNode → Bytes
id_or none node = codes "evilresp-" ++ decimal node.local.port
id_or (some id) node = id

-- `LocalNode::to_resp_frame`.
unfoldable pub node_frame : LocalNode → Frame
node_frame node = array (
    cons (bulk_string (some node.local.ip)) (
      cons (integer (pos node.local.port))
        (cons (bulk_string (some (id_or node.node_id node))) nil)))

unfoldable pub node_frames : List LocalNode → Frames
unfolding node_frame
node_frames [] = nil
node_frames (node ∷ nodes) = cons (node_frame node) (node_frames nodes)

-- `LocalSlotRange::to_resp_frame`.
unfoldable pub range_frame : LocalSlotRange → Frame
unfolding node_frames
range_frame slot = array (
    cons (integer (pos slot.start))
      (cons (integer (pos slot.end)) (node_frames (slot.primary ∷ slot.replicas))))

unfoldable pub range_frames : List LocalSlotRange → Frames
unfolding range_frame
range_frames [] = nil
range_frames (slot ∷ slots) = cons (range_frame slot) (range_frames slots)

unfoldable pub local_slots_response : Topology → Option Frame
unfolding range_frames
local_slots_response (standalone target) = none
local_slots_response (cluster targets slots) = some (array (range_frames slots))
