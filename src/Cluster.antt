-- ===== src/Cluster.antt =====
-- src/cluster.rs: the slot ranges of CLUSTER SLOTS, and the parsing of that reply. The text of a host
-- is its bytes; `lossy` stands for `String::from_utf8_lossy`.
pub mod Allocate
pub mod Redirect
mod Local
pub mod Answer
mod Seen
mod Step
mod Ports
mod Registered
mod Tests
use evilresp.Base.Bytes.{Bytes, codes, equal}
use evilresp.Base.Decimal.{decimal}
use evilresp.Base.Int.{ℤ, pos, negsuc}
use evilresp.Base.Options.{bind}
use evilresp.Base.{
  ℕ, ◌^◌, Bool, true, false, not, ◌&&◌, ◌||◌, List, [], ◌∷◌, ◌++◌, Option, none, some, ltb, ◌==◌,
  if◌then◌else◌,
}
use evilresp.Resp.Frame.{
  Frame, Frames, nil, cons, simple_string, integer, bulk_string, array, verbatim_string,
}

pub record TcpEndpoint : Type 0 where
  pub host : Bytes
  pub port : ℕ

-- `SocketAddr`: the text of its address, and its port.
pub record SocketAddr : Type 0 where
  pub ip : Bytes
  pub port : ℕ

pub record LocalNode : Type 0 where
  pub upstream : TcpEndpoint
  pub local : SocketAddr
  pub node_id : Option Bytes

pub record LocalSlotRange : Type 0 where
  pub start : ℕ
  pub end : ℕ
  pub primary : LocalNode
  pub replicas : List LocalNode

-- `Endpoint::Tcp` on both sides.
pub record ProxyTarget : Type 0 where
  pub upstream : TcpEndpoint
  pub listen : TcpEndpoint

abbrev pub has_byte : ℕ → Bytes → Bool
has_byte c [] = false
has_byte c (b ∷ bs) = b == c || has_byte c bs

abbrev pub starts_with_byte : ℕ → Bytes → Bool
starts_with_byte c [] = false
starts_with_byte c (b ∷ bs) = b == c

-- `TcpEndpoint::connect_addr`.
unfoldable pub connect_addr : TcpEndpoint → Bytes
connect_addr e =
    if has_byte b':' e.host && not (starts_with_byte b'[' e.host)
    then codes "[" ++ (e.host ++ (codes "]:" ++ decimal e.port))
    else e.host ++ (codes ":" ++ decimal e.port)

abbrev pub socket_addr_to_endpoint : SocketAddr → TcpEndpoint
socket_addr_to_endpoint addr = record { host = addr.ip; port = addr.port }

-- `u16::try_from`.
abbrev pub to_u16 : ℤ → Option ℕ
to_u16 (pos n) = if ltb n (2 ^ 16) then some n else none
to_u16 (negsuc n) = none

unfoldable pub as_slot : Frame → Option ℕ
as_slot (integer value) = to_u16 value
as_slot frame = none

abbrev pub text_or : Bytes → Bytes → Bytes
text_or text bootstrap = if equal text [] || equal text (codes "?") then bootstrap else text

module _ (lossy : Bytes → Bytes) (bootstrap : TcpEndpoint) where
  unfoldable pub host_of : Frame → Option Bytes
  host_of (bulk_string (some bytes)) = some (text_or (lossy bytes) bootstrap.host)
  host_of (verbatim_string bytes) = some (text_or (lossy bytes) bootstrap.host)
  host_of (simple_string host) = some host
  host_of frame = none

  unfoldable pub id_of : Frames → Option Bytes
  id_of (cons (bulk_string (some bytes)) rest) = some bytes
  id_of (cons (verbatim_string bytes) rest) = some bytes
  id_of (cons (simple_string value) rest) = some value
  id_of rest = none

  -- `filter(|id| !id.is_empty())`.
  abbrev pub not_empty : Option Bytes → Option Bytes
  not_empty none = none
  not_empty (some []) = none
  not_empty (some (b ∷ bs)) = some (b ∷ bs)

  unfoldable pub parse_node : Frame → Option LocalNode
  unfolding host_of as_slot id_of
  parse_node (array (cons host (cons port rest))) = bind (host_of host) λ h.
      bind (as_slot port) λ p. some record {
        upstream = record { host = h; port = p };
        local = record { ip = codes "127.0.0.1"; port = 0 };
        node_id = not_empty (id_of rest);
      }
  parse_node frame = none

  unfoldable pub parse_nodes : Frames → Option (List LocalNode)
  unfolding parse_node
  parse_nodes nil = some []
  parse_nodes (cons f fs) = bind (parse_node f) λ n. bind (parse_nodes fs) λ ns. some (n ∷ ns)

  unfoldable pub parse_slot_range : Frame → Option LocalSlotRange
  unfolding parse_nodes as_slot
  parse_slot_range (array (cons start (cons end (cons primary replicas)))) =
      bind (as_slot start) λ s. bind (as_slot end) λ e. bind (parse_node primary) λ p.
        bind (parse_nodes replicas)
          λ rs. some record { start = s; end = e; primary = p; replicas = rs }
  parse_slot_range frame = none

  unfoldable pub parse_cluster_slots : Frames → Option (List LocalSlotRange)
  unfolding parse_slot_range
  parse_cluster_slots nil = some []
  parse_cluster_slots (cons f fs) =
      bind (parse_slot_range f) λ s. bind (parse_cluster_slots fs) λ ss. some (s ∷ ss)
