-- ===== src/Transport/Planned.antt =====
-- The plan of a delivery cuts exactly the bytes that are put on the wire.
use evilresp.Base.Bytes.{Bytes}
use evilresp.Base.{
  ℕ, zero, suc, ◌+◌, ◌-◌, ◌*◌, ◌≤◌, ◌≡◌, refl, arith, inl, inr, Bool, true, false, ◌||◌, not, [],
  ◌∷◌, ◌++◌, Option, none, some, length, min, ltb, ◌==◌, if◌then◌else◌, Bool-cases, Option-cases,
  take, length-append, length-take,
}
use evilresp.Random.{Random}
use evilresp.Transport.Config.{
  Cut, Chunks, off, random, at, max_boundaries, TransportConfig, enabled, is_cut_off, Ascending,
  AreBoundaries, IsValid,
}
use evilresp.Transport.Covers.{
  Covers, AllBelow, below-Ascending, below-AllBelow, with_end-Covers, Covers-Ascending, dedup-sort,
  draw_offsets_range,
}
use evilresp.Transport.Fault.{ConnectionFaultPlan, plan_fault, plan_fault-le, is_before, is_off}
use evilresp.Transport.Plan.{
  extra_reply, DeliveryPlan, plain, below, set_fault, truncated, extended, fault_end, wire_bytes,
  draw_cut, draw_boundaries, cut_or, chosen_plan, selected, delivery_plan, with_fault, plan,
}

length-extended :
    (n : ℕ) (response : Bytes)
    → length (extended n response) ≡ length response + n * length extra_reply
unfolding extended
length-extended zero response = omega arith
length-extended (suc n) response =
    omega (arith, length-extended n (response ++ extra_reply), length-append response extra_reply)

-- A cut that lies within the bytes leaves as many bytes as it says.
length-truncated :
    (o : Option ℕ) (bytes : Bytes)
    → cut_or o (length bytes) ≤ length bytes
    → length (truncated o bytes) ≡ cut_or o (length bytes)
unfolding truncated
length-truncated none bytes h = refl
length-truncated (some n) bytes h = omega (arith, length-take n bytes)

abbrev total_len : DeliveryPlan → ℕ → ℕ
total_len p n = n + p.extra_reply_count * length extra_reply

-- What holds of a plan before a fault is put in.
record IsCut (p : DeliveryPlan) (n : ℕ) (cut : Cut) : Type 0 where
  no_fault : p.connection_fault ≡ none
  covers : Covers 0 p.chunk_ends (cut_or p.truncate_at (total_len p n))
  inside : cut_or p.truncate_at (total_len p n) ≤ total_len p n
  uncut : is_cut_off cut ≡ true → p.truncate_at ≡ none

plain-Covers : (n : ℕ) → Covers 0 (if n == 0 then [] else n ∷ []) n
plain-Covers zero = refl
plain-Covers (suc n) =
    let positive : (suc n == 0) ≡ false = ground arith in rw positive (omega arith, refl)

plain-IsCut : (n : ℕ) (cut : Cut) → IsCut (plain n) n cut
unfolding plain
plain-IsCut n cut =
    let none_added : n + 0 * length extra_reply ≡ n = omega arith in
    record {
      no_fault = refl;
      covers = rw none_added (plain-Covers n);
      inside = omega arith;
      uncut = λ h. refl;
    }

module _ (r : Random) where
  draw_cut-le : (c : Cut) (total : ℕ) (g : r.Gen) → cut_or (draw_cut r c total g).0 total ≤ total
  unfolding draw_cut
  draw_cut-le off total g = omega arith
  draw_cut-le (at n) total g = elim (Bool-cases (ltb n total)) [
    | inl small ↦ rw small (ground arith)
    | inr large ↦ rw large (omega arith)
  ]
  draw_cut-le random total g = elim (Bool-cases (ltb 0 total)) [
    | inl some_bytes ↦ rw some_bytes (ground (arith, r.gen_range_bounds 0 total g (ground arith)))
    | inr empty ↦ rw empty (omega arith)
  ]

  draw_cut_off :
      (c : Cut) (total : ℕ) (g : r.Gen) → is_cut_off c ≡ true → (draw_cut r c total g).0 ≡ none
  unfolding draw_cut
  draw_cut_off off total g h = refl
  draw_cut_off (at n) total g h = cc
  draw_cut_off random total g h = cc

  boundaries_range :
      (c : Chunks) (len : ℕ) (g : r.Gen)
      → AreBoundaries c
      → Ascending 0 (draw_boundaries r c len g) × AllBelow len (draw_boundaries r c len g)
  unfolding draw_boundaries
  boundaries_range off len g h = (tt, tt)
  boundaries_range (at offsets) len g (up, few) =
      (below-Ascending 0 len offsets up, below-AllBelow len offsets)
  boundaries_range random len g h = elim (Bool-cases (ltb 1 len)) [
    | inl room ↦ rw room (
        let d = r.gen_range_inclusive 1 (min max_boundaries (len - 1)) g in
        let (above, small) = draw_offsets_range r d.0 len d.1 (ground arith) in
        dedup-sort len _ above small)
    | inr tight ↦ rw tight (tt, tt)
  ]

  chosen-IsCut :
      (c : TransportConfig r) (n : ℕ) (g : r.Gen)
      → AreBoundaries c.chunks
      → IsCut (chosen_plan r c n g) n c.truncate
  unfolding chosen_plan
  chosen-IsCut c n g b =
      let total = n + c.extra * length extra_reply in
      let d = draw_cut r c.truncate total g in
      let len = cut_or d.0 total in
      let (up, small) = boundaries_range c.chunks len d.1 b in
      record {
        no_fault = refl;
        covers = with_end-Covers len (draw_boundaries r c.chunks len d.1) up small;
        inside = draw_cut-le c.truncate total g;
        uncut = λ h. draw_cut_off c.truncate total g h;
      }

  selected-IsCut :
      (c : TransportConfig r) (n : ℕ) (d : Bool × r.Gen)
      → AreBoundaries c.chunks
      → IsCut (selected r c n d) n c.truncate
  unfolding selected
  selected-IsCut c n (true, g) b = chosen-IsCut c n g b
  selected-IsCut c n (false, g) b = plain-IsCut n c.truncate

  delivery-IsCut :
      (c : TransportConfig r) (seed index : ℕ) (command reply : Bytes) (n : ℕ)
      → AreBoundaries c.chunks
      → IsCut (delivery_plan r c seed index command reply n) n c.truncate
  unfolding delivery_plan
  delivery-IsCut c seed index command reply n b =
      elim (Bool-cases (not (enabled r c) || r.is_zero c.probability)) [
        | inl skipped ↦ rw skipped (plain-IsCut n c.truncate)
        | inr chosen ↦ rw chosen (selected-IsCut c n _ b)
      ]

  faulted-Covers :
      (p : DeliveryPlan) (response : Bytes) {cut : Cut} (fault : ConnectionFaultPlan)
      → IsCut p (length response) cut
      → is_cut_off cut ≡ true
      → fault.after_bytes ≤ total_len p (length response)
      → Covers 0 (set_fault p fault).chunk_ends (length (wire_bytes (set_fault p fault) response))
  unfolding set_fault wire_bytes fault_end truncated
  faulted-Covers p response {cut} fault d off_cut room =
      let up = Covers-Ascending 0 _ p.chunk_ends d.covers in
      let bytes = extended p.extra_reply_count response in
      let fits : fault.after_bytes ≤ length bytes =
        omega (arith, room, length-extended p.extra_reply_count response) in
      let end_here : length (take fault.after_bytes bytes) ≡ fault.after_bytes =
        omega (arith, length-take fault.after_bytes bytes, fits) in
      rw (d.uncut off_cut, end_here)
        (with_end-Covers fault.after_bytes (below fault.after_bytes p.chunk_ends)
          (below-Ascending 0 fault.after_bytes p.chunk_ends up)
          (below-AllBelow fault.after_bytes p.chunk_ends))

  unfaulted-Covers :
      (p : DeliveryPlan) (response : Bytes) {cut : Cut}
      → IsCut p (length response) cut
      → Covers 0 p.chunk_ends (length (wire_bytes p response))
  unfolding wire_bytes fault_end truncated
  unfaulted-Covers p response d =
      let bytes = extended p.extra_reply_count response in
      let len : length bytes ≡ total_len p (length response) =
        length-extended p.extra_reply_count response in
      let whole : length (truncated p.truncate_at bytes) ≡ cut_or p.truncate_at (length bytes) =
        length-truncated p.truncate_at bytes (rw len d.inside) in
      rw (d.no_fault, whole, len) d.covers

  no_action :
      (c : TransportConfig r) (seed index : ℕ) (hash : Bytes) (len : ℕ)
      → is_off c.fault.action ≡ true
      → plan_fault r c.fault c.probability seed index hash len ≡ none
  unfolding plan_fault
  no_action c seed index hash len h = rw h refl

  -- Under a valid configuration the chunk ends of a plan rise strictly from 0 to the number of
  -- bytes that the plan puts on the wire, whatever is drawn, with and without a fault.
  pub plan-Covers :
      (c : TransportConfig r) (seed index : ℕ) (command reply response : Bytes)
      → IsValid r c
      → Covers 0
          (plan r c seed index command reply (length response)).chunk_ends
          (length (wire_bytes (plan r c seed index command reply (length response)) response))
  unfolding plan with_fault
  plan-Covers c seed index command reply response v =
      let n = length response in
      let p = delivery_plan r c seed index command reply n in
      let d = delivery-IsCut c seed index command reply n v.bounded.boundaries in
      let len = n + p.extra_reply_count * length extra_reply in
      elim (Bool-cases (not (is_before c.fault.point))) [
        | inr before ↦ rw before (unfaulted-Covers p response d)
        | inl later ↦
            elim (Option-cases (plan_fault r c.fault c.probability seed index command len)) [
              | inl spared ↦ rw (later, spared) (unfaulted-Covers p response d)
              | inr (fault, drawn) ↦ elim (Bool-cases (is_off c.fault.action)) [
                | inl idle ↦ cc (no_action c seed index command len idle, drawn)
                | inr active ↦
                    rw (later, drawn)
                      (faulted-Covers p response fault d (ground (arith, active, v.exclusive))
                        (plan_fault-le r c.fault c.probability seed index command len drawn))
              ]
            ]
      ]
