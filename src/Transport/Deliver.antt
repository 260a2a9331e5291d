-- ===== src/Transport/Deliver.antt =====
-- src/transport.rs: `write_counted` and `deliver`, over a socket and a fingerprint that are
-- parameters.
use evilresp.Base.Bytes.{Bytes}
use evilresp.Base.{
  ℕ, zero, suc, ◌+◌, ◌-◌, ◌≤◌, ◌≡◌, Bool, true, false, ◌&&◌, List, [], ◌∷◌, ◌++◌, Option, none,
  some, length, take, drop, leb, if◌then◌else◌,
}
use evilresp.Transport.Fault.{ConnectionFaultPlan}
use evilresp.Transport.Plan.{DeliveryPlan}

-- `std::io::ErrorKind`, of which the code tells two apart.
pub data ErrorKind : Type 0 where
  interrupted write_zero : ErrorKind
  other : ℕ → ErrorKind

-- The answer to a `write`: so many bytes of the buffer were taken, or an error.
pub data Answer : Type 0 where
  accepted : ℕ → Answer
  failed : ErrorKind → Answer

-- How a future ends. It is `pending` while the socket has not answered often enough, and a slice
-- out of range is `panicked`.
pub data Ended : Type 0 where
  done pending panicked : Ended
  failed : ErrorKind → Ended

pub data Stage : Type 0 where
  write flush shutdown : Stage

-- The bytes that a write has handed over: those that it counts, and none under an error.
abbrev pub taken_of : Answer → Bytes → Bytes
taken_of (accepted n) buffer = take n buffer
taken_of (failed kind) buffer = []

abbrev pub Fits : Answer → Bytes → Type 0
Fits (accepted n) buffer = n ≤ length buffer
Fits (failed kind) buffer = Unit

-- `AsyncWrite`, with the contract of its documentation: `received` is what the peer is sent.
pub record Socket : Type 1 where
  pub State : Type 0
  pub received : State → Bytes
  pub write : State → Bytes → State × Answer
  pub flush : State → State × Option ErrorKind
  pub shutdown : State → State × Option ErrorKind
  pub write-Fits : (s : State) (buffer : Bytes) → Fits (write s buffer).1 buffer
  pub received-write :
      (s : State) (buffer : Bytes)
      → received (write s buffer).0 ≡ received s ++ taken_of (write s buffer).1 buffer
  pub received-flush : (s : State) → received (flush s).0 ≡ received s
  pub received-shutdown : (s : State) → received (shutdown s).0 ≡ received s

-- The outgoing half of `ProtocolFingerprints`: a hash that is fed piece by piece.
pub record Fingerprint : Type 1 where
  pub State : Type 0
  pub update : State → Bytes → State
  pub update-nil : (f : State) → update f [] ≡ f
  pub update-append : (f : State) (a b : Bytes) → update (update f a) b ≡ update f (a ++ b)

-- The bytes from `start` to `end`.
unfoldable pub slice : ℕ → ℕ → Bytes → Option Bytes
slice start end bytes =
    if leb start end && leb end (length bytes)
    then some (take (end - start) (drop start bytes))
    else none

abbrev pub is_some {ℓ} : {A : Type ℓ} → Option A → Bool
is_some none = false
is_some (some a) = true

-- `outcome.fault_completed` as a delivery starts.
abbrev pub not_yet : Option ConnectionFaultPlan → Option Bool
not_yet none = none
not_yet (some fault) = some false

abbrev pub stage_left : Ended → Option Stage → Option Stage
stage_left done stage = none
stage_left _ stage = stage

abbrev pub kind_of : Ended → Option ErrorKind
kind_of (failed kind) = some kind
kind_of _ = none

-- `stall_end` is filled in by the caller and left out.
pub record DeliveryOutcome : Type 0 where
  pub bytes_written : ℕ
  pub written_bytes_hash : Bytes
  pub completed_chunks : ℕ
  pub shutdown_completed : Bool
  pub error_stage : Option Stage
  pub error_kind : Option ErrorKind
  pub fault_completed : Option Bool

module _ (socket : Socket) (print : Fingerprint) where
  -- What the loops change: the socket, the fingerprint and the fields of the outcome.
  pub record Progress : Type 0 where
    pub writer : socket.State
    pub fingerprint : print.State
    pub written : ℕ
    pub chunks : ℕ
    pub shut : Bool
    pub stage : Option Stage
    pub ended : Ended

  -- One answer to the write of `buffer`; `again` is the loop.
  unfoldable pub answered : (Bytes → Progress → Progress) → Answer → Bytes → Progress → Progress
  answered again (accepted zero) buffer p = record p { ended = failed write_zero }
  answered again (accepted (suc n)) buffer p = again (drop (suc n) buffer) (record p {
    fingerprint = print.update p.fingerprint (take (suc n) buffer);
    written = p.written + suc n;
  })
  answered again (failed interrupted) buffer p = again buffer p
  answered again (failed kind) buffer p = record p { ended = failed kind }

  -- `write_counted`, for at most `fuel` answers of the socket.
  unfoldable pub write_counted : ℕ → Bytes → Progress → Progress
  unfolding answered
  write_counted fuel [] p = record p { ended = done }
  write_counted zero (b ∷ bytes) p = record p { ended = pending }
  write_counted (suc fuel) (b ∷ bytes) p =
      let (s, answer) = socket.write p.writer (b ∷ bytes) in
      answered (write_counted fuel) answer (b ∷ bytes) (record p { writer = s })

  unfoldable pub write_slice : ℕ → Option Bytes → Progress → Progress
  unfolding write_counted
  write_slice fuel none p = record p { ended = panicked }
  write_slice fuel (some part) p = write_counted fuel part p

  -- The `?` behind a step.
  unfoldable pub on : Ended → Progress → (Progress → Progress) → Progress
  on done p next = next p
  on _ p next = p

  unfoldable pub flushed : socket.State × Option ErrorKind → Progress → Progress
  flushed (s, none) p = record p { writer = s; chunks = suc p.chunks }
  flushed (s, some kind) p = record p { writer = s; ended = failed kind }

  unfoldable pub closed : socket.State × Option ErrorKind → Progress → Progress
  closed (s, none) p = record p { writer = s; shut = true }
  closed (s, some kind) p = record p { writer = s; ended = failed kind }

  unfoldable pub flush_chunk : Progress → Progress
  unfolding flushed
  flush_chunk p = flushed (socket.flush p.writer) (record p { stage = some flush })

  unfoldable pub write_chunk : ℕ → Bytes → ℕ → ℕ → Progress → Progress
  unfolding write_slice slice flush_chunk on
  write_chunk fuel bytes start end p =
      let q = write_slice fuel (slice start end bytes) (record p { stage = some write }) in
      on q.ended q flush_chunk

  -- The loop over the chunk ends.
  unfoldable pub write_chunks : ℕ → Bytes → ℕ → List ℕ → Progress → Progress
  unfolding write_chunk on
  write_chunks fuel bytes start [] p = p
  write_chunks fuel bytes start (end ∷ ends) p =
      let q = write_chunk fuel bytes start end p in on q.ended q (write_chunks fuel bytes end ends)

  unfoldable pub shut_down : Option ℕ → Progress → Progress
  unfolding closed
  shut_down none p = p
  shut_down (some n) p = closed (socket.shutdown p.writer) (record p { stage = some shutdown })

  unfoldable pub started : socket.State → print.State → Progress
  started s f = record {
    writer = s;
    fingerprint = f;
    written = 0;
    chunks = 0;
    shut = false;
    stage = none;
    ended = done;
  }

  unfoldable pub run : ℕ → socket.State → print.State → Bytes → DeliveryPlan → Progress
  unfolding write_chunks shut_down started on
  run fuel s f bytes plan =
      let q = write_chunks fuel bytes 0 plan.chunk_ends (started s f) in
      on q.ended q (shut_down plan.truncate_at)

  unfoldable pub outcome_of : (Bytes → Bytes) → Bytes → DeliveryPlan → Progress → DeliveryOutcome
  outcome_of hash bytes plan p = record {
    bytes_written = p.written;
    written_bytes_hash = hash (take p.written bytes);
    completed_chunks = p.chunks;
    shutdown_completed = p.shut;
    error_stage = stage_left p.ended p.stage;
    error_kind = kind_of p.ended;
    fault_completed = not_yet plan.connection_fault;
  }

  -- `deliver`: the outcome beside the state it leaves.
  unfoldable pub deliver :
      (Bytes → Bytes)
      → ℕ
      → socket.State
      → print.State
      → Bytes
      → DeliveryPlan
      → DeliveryOutcome × Progress
  unfolding run outcome_of
  deliver hash fuel s f bytes plan =
      let p = run fuel s f bytes plan in (outcome_of hash bytes plan p, p)
