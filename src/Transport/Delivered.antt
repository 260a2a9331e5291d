-- ===== src/Transport/Delivered.antt =====
-- Planning and delivery together.
use evilresp.Base.Bytes.{Bytes}
use evilresp.Base.{ℕ, ◌≡◌, refl, ap, arith, none, length, take_all}
use evilresp.Random.{Random}
use evilresp.Transport.Config.{TransportConfig, IsValid}
use evilresp.Transport.Deliver.{
  Socket, Fingerprint, done, is_some, deliver, outcome_of, DeliveryOutcome,
}
use evilresp.Transport.Plan.{DeliveryPlan, plan, wire_bytes}
use evilresp.Transport.Planned.{plan-Covers}
use evilresp.Transport.Sent.{IsAccounted, run-IsAccounted, run_whole}

-- A response that is planned under a valid configuration and delivered, however the socket answers:
-- the peer is sent, and the fingerprint is fed, exactly the first `written` of the planned wire
-- bytes, and no chunk is out of range.
pub deliver-IsAccounted :
    (r : Random) (socket : Socket) (print : Fingerprint) (c : TransportConfig r) (seed index : ℕ)
    (command reply response : Bytes) (fuel : ℕ) (s : socket.State) (f : print.State)
    → IsValid r c
    → IsAccounted socket print
        (wire_bytes (plan r c seed index command reply (length response)) response)
        s
        f
        (deliver socket print r.sha256 fuel s f
          (wire_bytes (plan r c seed index command reply (length response)) response)
          (plan r c seed index command reply (length response))).1
unfolding deliver
deliver-IsAccounted r socket print c seed index command reply response fuel s f v =
    let p = plan r c seed index command reply (length response) in
    run-IsAccounted socket print (wire_bytes p response) s f fuel p
      (plan-Covers r c seed index command reply response v)

-- The report of a whole delivery of `bytes`.
pub record IsWhole (hash : Bytes → Bytes) (bytes : Bytes) (p : DeliveryPlan) (o : DeliveryOutcome)
    : Type 0 where
  pub all_written : o.bytes_written ≡ length bytes
  pub hashed : o.written_bytes_hash ≡ hash bytes
  pub all_chunks : o.completed_chunks ≡ length p.chunk_ends
  pub shut_if_cut : o.shutdown_completed ≡ is_some p.truncate_at
  pub no_stage : o.error_stage ≡ none
  pub no_kind : o.error_kind ≡ none

-- When such a delivery ends without an error, its outcome reports all planned wire bytes and their
-- hash, all planned chunks, a shutdown exactly when the plan truncates, and neither an error stage
-- nor an error kind.
pub deliver-IsWhole :
    (r : Random) (socket : Socket) (print : Fingerprint) (c : TransportConfig r) (seed index : ℕ)
    (command reply response : Bytes) (fuel : ℕ) (s : socket.State) (f : print.State)
    → IsValid r c
    → (deliver socket print r.sha256 fuel s f
        (wire_bytes (plan r c seed index command reply (length response)) response)
        (plan r c seed index command reply (length response))).1.ended
      ≡ done
    → IsWhole r.sha256
        (wire_bytes (plan r c seed index command reply (length response)) response)
        (plan r c seed index command reply (length response))
        (deliver socket print r.sha256 fuel s f
          (wire_bytes (plan r c seed index command reply (length response)) response)
          (plan r c seed index command reply (length response))).0
unfolding deliver outcome_of
deliver-IsWhole r socket print c seed index command reply response fuel s f v e =
    let p = plan r c seed index command reply (length response) in
    let wire = wire_bytes p response in
    let (sent, chunks, shut) =
      run_whole socket print wire s f fuel p (plan-Covers r c seed index command reply response v)
        e in
    record {
      all_written = sent;
      hashed = rw sent (ap r.sha256 (take_all (length wire) wire (omega arith)));
      all_chunks = chunks;
      shut_if_cut = shut;
      no_stage = rw e refl;
      no_kind = rw e refl;
    }
