-- ===== src/Transport/Plan.antt =====
-- src/transport.rs: `DeliveryPlan`, how it is drawn, and the bytes that it puts on the wire.
use evilresp.Base.Bytes.{Bytes, codes}
use evilresp.Base.{
  ℕ, zero, suc, ◌+◌, ◌-◌, ◌*◌, Bool, true, false, ◌||◌, not, List, [], ◌∷◌, ◌++◌, Option, none,
  some, length, take, min, ltb, leb, ◌==◌, if◌then◌else◌,
}
use evilresp.Random.{Random, rng_for}
use evilresp.Transport.Config.{
  Cut, Chunks, off, random, at, max_boundaries, TransportConfig, enabled,
}
use evilresp.Transport.Fault.{ConnectionFaultPlan, plan_fault, is_before}

abbrev pub extra_reply : Bytes
extra_reply = codes "+EVILRESP\r\n"

-- `extra_reply_bytes_hex` is the constant above in hexadecimal and is left out.
pub record DeliveryPlan : Type 0 where
  pub version : ℕ
  pub extra_reply_count : ℕ
  pub truncate_at : Option ℕ
  pub chunk_ends : List ℕ
  pub connection_fault : Option ConnectionFaultPlan

unfoldable pub plain : ℕ → DeliveryPlan
plain len = record {
  version = 1;
  extra_reply_count = 0;
  truncate_at = none;
  chunk_ends = if len == 0 then [] else len ∷ [];
  connection_fault = none;
}

-- The ends below `len`, and the positive `len` behind them.
unfoldable pub below : ℕ → List ℕ → List ℕ
below len [] = []
below len (n ∷ ns) = if ltb n len then n ∷ below len ns else below len ns

unfoldable pub with_end : ℕ → List ℕ → List ℕ
with_end len ends = if ltb 0 len then ends ++ len ∷ [] else ends

unfoldable pub set_fault : DeliveryPlan → ConnectionFaultPlan → DeliveryPlan
unfolding below with_end
set_fault p fault = record p {
  version = 2;
  chunk_ends = with_end fault.after_bytes (below fault.after_bytes p.chunk_ends);
  connection_fault = some fault;
}

abbrev pub is_some {ℓ} : {A : Type ℓ} → Option A → Bool
is_some none = false
is_some (some a) = true

unfoldable pub is_fault : DeliveryPlan → Bool
is_fault p =
    is_some p.connection_fault
    || not (p.extra_reply_count == 0)
    || is_some p.truncate_at
    || ltb 1 (length p.chunk_ends)

-- `Vec::truncate`; nothing is cut without an offset.
unfoldable pub truncated : Option ℕ → Bytes → Bytes
truncated none bytes = bytes
truncated (some n) bytes = take n bytes

unfoldable pub extended : ℕ → Bytes → Bytes
extended zero response = response
extended (suc n) response = extended n (response ++ extra_reply)

unfoldable pub fault_end : Option ConnectionFaultPlan → Option ℕ
fault_end none = none
fault_end (some fault) = some fault.after_bytes

unfoldable pub wire_bytes : DeliveryPlan → Bytes → Bytes
unfolding truncated extended fault_end
wire_bytes p response =
    truncated (fault_end p.connection_fault)
      (truncated p.truncate_at (extended p.extra_reply_count response))

-- `sort_unstable` and `dedup`.
unfoldable pub insert : ℕ → List ℕ → List ℕ
insert n [] = n ∷ []
insert n (m ∷ ms) = if leb n m then n ∷ m ∷ ms else m ∷ insert n ms

unfoldable pub sort : List ℕ → List ℕ
unfolding insert
sort [] = []
sort (n ∷ ns) = insert n (sort ns)

-- The first argument is the element in front.
unfoldable pub dedup_from : ℕ → List ℕ → List ℕ
dedup_from n [] = []
dedup_from n (m ∷ ms) = let rest = dedup_from m ms in if n == m then rest else m ∷ rest

unfoldable pub dedup : List ℕ → List ℕ
unfolding dedup_from
dedup [] = []
dedup (n ∷ ns) = n ∷ dedup_from n ns

abbrev pub cut_or : Option ℕ → ℕ → ℕ
cut_or none total = total
cut_or (some n) total = n

module _ (r : Random) where
  open r use {F64, is_zero, Gen, gen_bool_percent, gen_range, gen_range_inclusive}

  -- `count` draws of an offset from 1 below `len`.
  unfoldable pub draw_offsets : ℕ → ℕ → Gen → List ℕ
  draw_offsets zero len g = []
  draw_offsets (suc n) len g = let (x, g') = gen_range 1 len g in x ∷ draw_offsets n len g'

  -- The offset of the truncation in `total` bytes, with the generator behind its draw.
  unfoldable pub draw_cut : Cut → ℕ → Gen → Option ℕ × Gen
  draw_cut off total g = (none, g)
  draw_cut (at n) total g = (if ltb n total then some n else none, g)
  draw_cut random total g =
      let (x, g') = gen_range 0 total g in if ltb 0 total then (some x, g') else (none, g)

  unfoldable pub draw_boundaries : Chunks → ℕ → Gen → List ℕ
  unfolding below draw_offsets sort dedup
  draw_boundaries off len g = []
  draw_boundaries (at offsets) len g = below len offsets
  draw_boundaries random len g =
      let (n, g') = gen_range_inclusive 1 (min max_boundaries (len - 1)) g in
      if ltb 1 len then dedup (sort (draw_offsets n len g')) else []

  -- The plan of a delivery that was chosen.
  unfoldable pub chosen_plan : TransportConfig r → ℕ → Gen → DeliveryPlan
  unfolding draw_cut draw_boundaries with_end
  chosen_plan c response_len g =
      let total = response_len + c.extra * length extra_reply in
      let (cut, g') = draw_cut c.truncate total g in
      let len = cut_or cut total in
      record {
        version = 1;
        extra_reply_count = c.extra;
        truncate_at = cut;
        chunk_ends = with_end len (draw_boundaries c.chunks len g');
        connection_fault = none;
      }

  unfoldable pub selected : TransportConfig r → ℕ → Bool × Gen → DeliveryPlan
  unfolding chosen_plan plain
  selected c response_len (true, g) = chosen_plan c response_len g
  selected c response_len (false, g) = plain response_len

  unfoldable pub delivery_plan : TransportConfig r → ℕ → ℕ → Bytes → Bytes → ℕ → DeliveryPlan
  unfolding selected plain
  delivery_plan c seed command_index command_hash reply_hash response_len =
      if not (enabled r c) || is_zero c.probability
      then plain response_len
      else selected c response_len (
          gen_bool_percent c.probability
            (rng_for r seed command_index (codes "transport:v1:" ++ command_hash) reply_hash))

  unfoldable pub with_fault : DeliveryPlan → Option ConnectionFaultPlan → DeliveryPlan
  unfolding set_fault
  with_fault p none = p
  with_fault p (some fault) = set_fault p fault

  -- `TransportConfig::plan`.
  unfoldable pub plan : TransportConfig r → ℕ → ℕ → Bytes → Bytes → ℕ → DeliveryPlan
  unfolding with_fault
  plan c seed command_index command_hash reply_hash response_len =
      let p = delivery_plan c seed command_index command_hash reply_hash response_len in
      let len = response_len + p.extra_reply_count * length extra_reply in
      if not (is_before c.fault.point)
      then with_fault p (plan_fault r c.fault c.probability seed command_index command_hash len)
      else p

  unfoldable pub before_fault : Option ConnectionFaultPlan → Option DeliveryPlan
  unfolding set_fault plain
  before_fault none = none
  before_fault (some fault) = some (set_fault (plain 0) fault)

  -- `TransportConfig::before_plan`.
  unfoldable pub before_plan : TransportConfig r → ℕ → ℕ → Bytes → Option DeliveryPlan
  unfolding before_fault
  before_plan c seed index hash =
      if not (is_before c.fault.point)
      then none
      else before_fault (plan_fault r c.fault c.probability seed index hash 0)
