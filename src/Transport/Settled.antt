-- ===== src/Transport/Settled.antt =====
-- A delivery comes to an end: no loop waits on a socket that goes on answering.
use evilresp.Base.Bytes.{Bytes}
use evilresp.Base.{
  ℕ, zero, suc, ◌+◌, ◌-◌, ◌≤◌, ◌<◌, ◌≡◌, ◌≢◌, refl, arith, inl, inr, ◌&&◌, List, [], ◌∷◌, Option,
  none, some, length, take, drop, leb, Bool-cases, length-take, length-drop,
}
use evilresp.Transport.Deliver.{
  ErrorKind, interrupted, write_zero, other, Answer, accepted, failed, Ended, done, pending,
  panicked, write, flush, shutdown, Socket, Fingerprint, slice, Progress, answered, write_counted,
  write_slice, on, flushed, closed, flush_chunk, write_chunk, write_chunks, shut_down, started, run,
}
use evilresp.Transport.Plan.{DeliveryPlan}

-- The socket interrupts a write finitely often: every interruption costs patience.
pub record Patience (socket : Socket) : Type 0 where
  pub left : socket.State → ℕ
  pub left-write : (s : socket.State) (buffer : Bytes) → left (socket.write s buffer).0 ≤ left s
  pub left-interrupted :
      (s : socket.State) (buffer : Bytes)
      → (socket.write s buffer).1 ≡ failed interrupted
      → left (socket.write s buffer).0 < left s
  pub left-flush : (s : socket.State) → left (socket.flush s).0 ≤ left s

module _ (socket : Socket) (print : Fingerprint) (patience : Patience socket) where
  record IsSettled (most : ℕ) (q : Progress socket print) : Type 0 where
    settled : q.ended ≢ pending
    patient : patience.left q.writer ≤ most

  Settles : ℕ → (Bytes → Progress socket print → Progress socket print) → Type 0
  Settles fuel again =
      (part : Bytes) (p : Progress socket print)
      → length part + patience.left p.writer ≤ fuel
      → IsSettled (patience.left p.writer) (again part p)

  answered-IsSettled :
      (fuel most : ℕ) (again : Bytes → Progress socket print → Progress socket print)
      → Settles fuel again
      → (a : Answer) (part : Bytes) (p : Progress socket print) → length part + most ≤ suc fuel
      → 0 < length part
      → patience.left p.writer ≤ most
      → (a ≡ failed interrupted → patience.left p.writer < most)
      → IsSettled most (answered socket print again a part p)
  unfolding answered Settles
  answered-IsSettled fuel most again ih (accepted zero) part p room full few less = record {
    settled = λ e. cc;
    patient = few;
  }
  answered-IsSettled fuel most again ih (accepted (suc n)) part p room full few less =
      let p' : Progress socket print = record p {
        fingerprint = print.update p.fingerprint (take (suc n) part);
        written = p.written + suc n;
      } in
      let w = ih (drop (suc n) part) p' (omega (arith, length-drop (suc n) part)) in
      record { settled = w.settled; patient = omega (arith, w.patient) }
  answered-IsSettled fuel most again ih (failed interrupted) part p room full few less =
      let w = ih part p (omega (arith, less refl)) in
      record { settled = w.settled; patient = omega (arith, w.patient) }
  answered-IsSettled fuel most again ih (failed write_zero) part p room full few less = record {
    settled = λ e. cc;
    patient = few;
  }
  answered-IsSettled fuel most again ih (failed (other k)) part p room full few less = record {
    settled = λ e. cc;
    patient = few;
  }

  write_counted-Settles : (fuel : ℕ) → Settles fuel (write_counted socket print fuel)
  unfolding write_counted Settles
  write_counted-Settles fuel [] p room = record { settled = λ e. cc; patient = omega arith }
  write_counted-Settles zero (b ∷ part) p room = absurd (omega arith)
  write_counted-Settles (suc fuel) (b ∷ part) p room =
      let answer = socket.write p.writer (b ∷ part) in
      answered-IsSettled fuel (patience.left p.writer) (write_counted socket print fuel)
        (write_counted-Settles fuel) answer.1 (b ∷ part) (record p { writer = answer.0 }) room
        (omega arith) (patience.left-write p.writer (b ∷ part))
        (patience.left-interrupted p.writer (b ∷ part))

  on-IsSettled :
      (most : ℕ) (e : Ended) (q : Progress socket print)
      (next : Progress socket print → Progress socket print)
      → q.ended ≡ e
      → IsSettled most q
      → (q.ended ≡ done → IsSettled most (next q))
      → IsSettled most (on socket print e q next)
  unfolding on
  on-IsSettled most done q next h a k = k h
  on-IsSettled most pending q next h a k = a
  on-IsSettled most panicked q next h a k = a
  on-IsSettled most (failed kind) q next h a k = a

  flushed-IsSettled :
      (most : ℕ) (d : socket.State × Option ErrorKind) (q : Progress socket print)
      → patience.left d.0 ≤ most
      → q.ended ≢ pending
      → IsSettled most (flushed socket print d q)
  unfolding flushed
  flushed-IsSettled most (w, none) q h e = record { settled = e; patient = h }
  flushed-IsSettled most (w, some kind) q h e = record { settled = λ e'. cc; patient = h }

  slice-IsSettled :
      (fuel start end most : ℕ) (bytes : Bytes) (p : Progress socket print)
      → length bytes + most ≤ fuel
      → patience.left p.writer ≤ most
      → IsSettled most (write_slice socket print fuel (slice start end bytes) p)
  unfolding slice write_slice Settles
  slice-IsSettled fuel start end most bytes p room few =
      elim (Bool-cases (leb start end && leb end (length bytes))) [
        | inl inside ↦
            let part = take (end - start) (drop start bytes) in
            let w = write_counted-Settles fuel part p (
              omega (
                arith,
                room,
                few,
                length-take (end - start) (drop start bytes),
                length-drop start bytes,
              )) in
            rw inside (record { settled = w.settled; patient = omega (arith, w.patient, few) })
        | inr outside ↦ rw outside (record { settled = λ e. cc; patient = few })
      ]

  chunk-IsSettled :
      (fuel start end most : ℕ) (bytes : Bytes) (p : Progress socket print)
      → length bytes + most ≤ fuel
      → patience.left p.writer ≤ most
      → IsSettled most (write_chunk socket print fuel bytes start end p)
  unfolding write_chunk flush_chunk
  chunk-IsSettled fuel start end most bytes p room few =
      let q =
        write_slice socket print fuel (slice start end bytes) (record p { stage = some write }) in
      let a =
        slice-IsSettled fuel start end most bytes (record p { stage = some write }) room few in
      on-IsSettled most q.ended q (flush_chunk socket print) refl a (λ e.
        flushed-IsSettled most (socket.flush q.writer) (record q { stage = some flush })
          (omega (arith, a.patient, patience.left-flush q.writer)) a.settled)

  chunks-IsSettled :
      (fuel start most : ℕ) (ends : List ℕ) (bytes : Bytes) (p : Progress socket print)
      → length bytes + most ≤ fuel
      → IsSettled most p
      → IsSettled most (write_chunks socket print fuel bytes start ends p)
  unfolding write_chunks
  chunks-IsSettled fuel start most [] bytes p room a = a
  chunks-IsSettled fuel start most (end ∷ ends) bytes p room a =
      let q = write_chunk socket print fuel bytes start end p in
      let b = chunk-IsSettled fuel start end most bytes p room a.patient in
      on-IsSettled most q.ended q (write_chunks socket print fuel bytes end ends) refl b
        (λ e. chunks-IsSettled fuel end most ends bytes q room b)

  closed_settled :
      (d : socket.State × Option ErrorKind) (q : Progress socket print)
      → q.ended ≢ pending
      → (closed socket print d q).ended ≢ pending
  unfolding closed
  closed_settled (w, none) q e = e
  closed_settled (w, some kind) q e = λ e'. cc

  shut_settled :
      (cut : Option ℕ) (q : Progress socket print)
      → q.ended ≢ pending
      → (shut_down socket print cut q).ended ≢ pending
  unfolding shut_down
  shut_settled none q e = e
  shut_settled (some n) q e =
      closed_settled (socket.shutdown q.writer) (record q { stage = some shutdown }) e

  on_settled :
      (cut : Option ℕ) (e : Ended) (q : Progress socket print)
      → q.ended ≢ pending
      → (on socket print e q (shut_down socket print cut)).ended ≢ pending
  unfolding on
  on_settled cut done q h = shut_settled cut q h
  on_settled cut pending q h = h
  on_settled cut panicked q h = h
  on_settled cut (failed kind) q h = h

  -- When the socket interrupts writes finitely often, a delivery of any plan ends after at most as
  -- many answers per chunk as there are bytes and interruptions.
  pub run-ne-pending :
      (fuel : ℕ) (s : socket.State) (f : print.State) (bytes : Bytes) (plan : DeliveryPlan)
      → length bytes + patience.left s ≤ fuel
      → (run socket print fuel s f bytes plan).ended ≢ pending
  unfolding run started
  run-ne-pending fuel s f bytes plan room =
      let start : IsSettled (patience.left s) (started socket print s f) = record {
        settled = λ e. cc;
        patient = omega arith;
      } in
      on_settled plan.truncate_at _ _
        (chunks-IsSettled fuel 0 (patience.left s) plan.chunk_ends bytes (started socket print s f)
          room start).settled
