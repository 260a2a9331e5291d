-- ===== src/Cluster/Local.antt =====
-- What the redirection map answers with.
use evilresp.Base.Bytes.{Bytes, equal}
use evilresp.Base.Options.{bind-eq-some, of_some}
use evilresp.Base.{
  ℕ, zero, suc, ◌^◌, ◌≡◌, refl, ◌∙◌, ap, inl, inr, List, [], ◌∷◌, Option, none, some, All, all,
  get_elem?, ◌==◌, if◌then◌else◌, Bool-cases,
}
use evilresp.Base.Decimal.{parse_unsigned}
use evilresp.Cluster.Redirect.{
  or_else, ClusterRedirectionMap, Filled, unfilled, meet, fill, fill_all, settled, from_mappings,
  nodes_of, local_text, mappings_of, same_id, fill_ids, from_slot_ranges, by_server, rewrite_server,
  rewrite_node, parse_endpoint, rsplit_colon,
}
use evilresp.Cluster.{TcpEndpoint, LocalNode, LocalSlotRange, connect_addr}

-- The local endpoints of the mappings with an upstream port, in order.
abbrev pub locals_at : ℕ → List (TcpEndpoint × Bytes) → List Bytes
locals_at port [] = []
locals_at port ((upstream, local) ∷ ms) =
    if port == upstream.port then local ∷ locals_at port ms else locals_at port ms

-- The one value of a list, if it has exactly one.
abbrev pub unique : List Bytes → Option Bytes
unique [] = none
unique (x ∷ xs) = if all (equal x) xs then some x else none

merge : Option (Option Bytes) → List Bytes → Option (Option Bytes)
merge o [] = o
merge o (x ∷ xs) = merge (meet o x) xs

fill_all-merge :
    (ms : List (TcpEndpoint × Bytes)) (m : Filled) (port : ℕ)
    → (fill_all ms m).by_port port ≡ merge (m.by_port port) (locals_at port ms)
unfolding fill_all fill merge
fill_all-merge [] m port = refl
fill_all-merge ((upstream, local) ∷ ms) m port =
    fill_all-merge ms (fill (upstream, local) m) port ∙ elim (Bool-cases (port == upstream.port)) [
      | inl same ↦ rw same refl
      | inr other ↦ rw other refl
    ]

merge_ambiguous : (xs : List Bytes) → settled (merge (some none) xs) ≡ none
unfolding merge meet
merge_ambiguous [] = refl
merge_ambiguous (x ∷ xs) = merge_ambiguous xs

merge_one :
    (y : Bytes) (xs : List Bytes)
    → settled (merge (some (some y)) xs) ≡ (if all (equal y) xs then some y else none)
unfolding merge meet
merge_one y [] = refl
merge_one y (x ∷ xs) = elim (Bool-cases (equal y x)) [
  | inl same ↦ rw same (merge_one y xs)
  | inr other ↦ rw other (merge_ambiguous xs)
]

settled-merge : (xs : List Bytes) → settled (merge none xs) ≡ unique xs
unfolding merge meet
settled-merge [] = refl
settled-merge (x ∷ xs) = merge_one x xs

-- Whatever the mappings and their order, a port is looked up to the one local endpoint of all
-- mappings with this upstream port, and to none where two of them disagree or where there are none.
pub from_mappings-unique :
    (ms : List (TcpEndpoint × Bytes)) (port : ℕ)
    → (from_mappings ms).local_by_unique_upstream_port port ≡ unique (locals_at port ms)
unfolding from_mappings
from_mappings-unique ms port =
    ap settled (fill_all-merge ms unfilled port) ∙ settled-merge (locals_at port ms)

-- A property of local endpoints that the maps keep.
module _ (P : Bytes → Type 0) where
  abbrev Holds : Option Bytes → Type 0
  Holds o = (l : Bytes) → o ≡ some l → P l

  record FilledHolds (m : Filled) : Type 0 where
    upstream : (key : Bytes) → Holds (m.by_upstream key)
    port : (n : ℕ) → Holds (settled (m.by_port n))

  meet-Holds :
      (o : Option (Option Bytes)) (local : Bytes)
      → P local
      → Holds (settled o)
      → Holds (settled (meet o local))
  unfolding meet
  meet-Holds none local p h l e = of_some P e p
  meet-Holds (some none) local p h l e = cc
  meet-Holds (some (some existing)) local p h l e = elim (Bool-cases (equal existing local)) [
    | inl same ↦ h l (rw same at e)
    | inr other ↦ cc (rw other at e)
  ]

  fill-FilledHolds :
      (m : TcpEndpoint × Bytes) (f : Filled) → P m.1 → FilledHolds f → FilledHolds (fill m f)
  unfolding fill
  fill-FilledHolds (upstream, local) f p h = record {
    upstream = λ key l e. elim (Bool-cases (equal key (connect_addr upstream))) [
      | inl same ↦ of_some P (rw same at e) p
      | inr other ↦ h.upstream key l (rw other at e)
    ];
    port = λ n l e. elim (Bool-cases (n == upstream.port)) [
      | inl same ↦ meet-Holds (f.by_port n) local p (h.port n) l (rw same at e)
      | inr other ↦ h.port n l (rw other at e)
    ];
  }

  fill_all-FilledHolds :
      (nodes : List LocalNode) (f : Filled)
      → All (λ n. P (local_text n)) nodes
      → FilledHolds f
      → FilledHolds (fill_all (mappings_of nodes) f)
  unfolding fill_all
  fill_all-FilledHolds [] f a h = h
  fill_all-FilledHolds (node ∷ nodes) f (first, rest) h =
      fill_all-FilledHolds nodes _ rest
        (fill-FilledHolds (node.upstream, local_text node) f first h)

  fill_ids-Holds :
      (nodes : List LocalNode) (found : Bytes → Option Bytes)
      → All (λ n. P (local_text n)) nodes
      → ((id : Bytes) → Holds (found id))
      → (id : Bytes) → Holds (fill_ids nodes found id)
  unfolding fill_ids
  fill_ids-Holds [] found a h id = h id
  fill_ids-Holds (node ∷ nodes) found (first, rest) h id =
      fill_ids-Holds nodes _ rest
        (λ key l e. elim (Bool-cases (same_id key node.node_id)) [
          | inl same ↦ of_some P (rw same at e) first
          | inr other ↦ h key l (rw other at e)
        ])
        id

  or_else-Holds : (a b : Option Bytes) → Holds a → Holds b → Holds (or_else a b)
  or_else-Holds none b ha hb = hb
  or_else-Holds (some x) b ha hb = ha

  module _ (m : ClusterRedirectionMap) (upstream : (key : Bytes) → Holds (m.local_by_upstream key))
      (port : (n : ℕ) → Holds (m.local_by_unique_upstream_port n))
      (ids : (id : Bytes) → Holds (m.local_by_node_id id)) where
    by_server-Holds :
        (e : Option TcpEndpoint) (parts : Option (Bytes × Bytes)) → Holds (by_server m e parts)
    by_server-Holds (some endpoint) parts l e =
        or_else-Holds (m.local_by_upstream (connect_addr endpoint))
          (m.local_by_unique_upstream_port endpoint.port) (upstream (connect_addr endpoint))
          (port endpoint.port) l e
    by_server-Holds none none l e = cc
    by_server-Holds none (some (host, text)) l e =
        let (p, read, found) = bind-eq-some (parse_unsigned (2 ^ 16) text) _ e in port p l found

    rewrite_node-Holds : (id : Option Bytes) (server : Bytes) → Holds (rewrite_node m id server)
    unfolding rewrite_node rewrite_server
    rewrite_node-Holds none server = by_server-Holds (parse_endpoint server) (rsplit_colon server)
    rewrite_node-Holds (some id) server =
        or_else-Holds (m.local_by_node_id id)
          (by_server m (parse_endpoint server) (rsplit_colon server)) (ids id)
          (by_server-Holds (parse_endpoint server) (rsplit_colon server))

All-get_elem? :
    {A : Type 0} (P : A → Type 0) (xs : List A)
    → ((n : ℕ) (x : A) → get_elem? xs n ≡ some x → P x)
    → All P xs
All-get_elem? P [] h = tt
All-get_elem? P (x ∷ xs) h = (h zero x refl, All-get_elem? P xs (λ n y e. h (suc n) y e))

-- The listener of one of the nodes.
pub record IsListener (nodes : List LocalNode) (l : Bytes) : Type 0 where
  pub index : ℕ
  pub node : LocalNode
  pub found : get_elem? nodes index ≡ some node
  pub text : local_text node ≡ l

-- When a node or a server of the upstream is rewritten, whatever its identifier and its text, the
-- result is the local listener of one of the nodes of the slot ranges.
pub rewrite_node-IsListener :
    (slots : List LocalSlotRange) (id : Option Bytes) (server l : Bytes)
    → rewrite_node (from_slot_ranges slots) id server ≡ some l
    → IsListener (nodes_of slots) l
unfolding from_slot_ranges from_mappings
rewrite_node-IsListener slots id server l e =
    let nodes = nodes_of slots in
    let P : Bytes → Type 0 = IsListener nodes in
    let listeners : All (λ n. P (local_text n)) nodes =
      All-get_elem? (λ n. P (local_text n)) nodes
        (λ i n at. record { index = i; node = n; found = at; text = refl }) in
    let filled =
      fill_all-FilledHolds P nodes unfilled listeners
        (record { upstream = λ key x h. cc; port = λ n x h. cc }) in
    rewrite_node-Holds P (from_slot_ranges slots) filled.upstream filled.port
      (fill_ids-Holds P nodes (λ key. none) listeners (λ key x h. cc)) id server l e
