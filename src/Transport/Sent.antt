-- ===== src/Transport/Sent.antt =====
-- What a delivery has sent: on every path a prefix of the planned bytes, accounted for exactly.
use evilresp.Base.Bytes.{Bytes}
use evilresp.Base.{
  ℕ, suc, ◌+◌, ◌-◌, ◌≤◌, ◌<◌, ◌≡◌, ◌≢◌, refl, arith, ap, sym, ◌∙◌, true, false, ◌&&◌, List, [], ◌∷◌,
  ◌++◌, append-nil, append_assoc, Option, none, some, length, take, drop, leb, length-take,
  length-drop, take-add, take-take,
}
use evilresp.Transport.Covers.{Covers, Covers-le}
use evilresp.Transport.Deliver.{
  ErrorKind, failed, Ended, done, pending, panicked, write, flush, shutdown, Socket, Fingerprint,
  slice, is_some, Progress, write_counted, write_slice, on, flushed, closed, flush_chunk,
  write_chunk, write_chunks, shut_down, started, run,
}
use evilresp.Transport.Plan.{DeliveryPlan}
use evilresp.Transport.Written.{write_counted-IsWritten}

take_piece :
    (bytes : Bytes) (start count n written : ℕ)
    → written ≡ start
    → count ≤ n
    → take written bytes ++ take count (take n (drop start bytes)) ≡ take (written + count) bytes
take_piece bytes start count n written h few =
    rw (h, take-take count n (drop start bytes) few) (sym (take-add start count bytes))

module _ (socket : Socket) (print : Fingerprint) where
  module _ (bytes : Bytes) (s : socket.State) (f : print.State) where
    -- The bytes up to `q.written` went out and into the fingerprint; when nothing failed these are
    -- the bytes up to `end`, in `n` chunks.
    record IsAhead (end n : ℕ) (q : Progress socket print) : Type 0 where
      received : socket.received q.writer ≡ socket.received s ++ take q.written bytes
      prints : q.fingerprint ≡ print.update f (take q.written bytes)
      within : q.written ≤ length bytes
      whole : q.ended ≡ done → (q.written ≡ end) × (q.chunks ≡ n)
      unshut : q.shut ≡ false
      orderly : q.ended ≢ panicked

    on-IsAhead :
        {end n hi m : ℕ} (e : Ended) (q : Progress socket print)
        (next : Progress socket print → Progress socket print)
        → q.ended ≡ e
        → IsAhead end n q
        → (q.ended ≡ done → IsAhead hi m (next q))
        → IsAhead hi m (on socket print e q next)
    unfolding on
    on-IsAhead done q next h a k = k h
    on-IsAhead pending q next h a k = record {
      received = a.received;
      prints = a.prints;
      within = a.within;
      whole = λ d. cc;
      unshut = a.unshut;
      orderly = a.orderly;
    }
    on-IsAhead panicked q next h a k = absurd (a.orderly h)
    on-IsAhead (failed kind) q next h a k = record {
      received = a.received;
      prints = a.prints;
      within = a.within;
      whole = λ d. cc;
      unshut = a.unshut;
      orderly = a.orderly;
    }

    flushed-IsAhead :
        {end n : ℕ} (d : socket.State × Option ErrorKind) (q : Progress socket print)
        → socket.received d.0 ≡ socket.received q.writer
        → IsAhead end n q
        → IsAhead end (suc n) (flushed socket print d q)
    unfolding flushed
    flushed-IsAhead (w, none) q h a = record {
      received = h ∙ a.received;
      prints = a.prints;
      within = a.within;
      whole = λ e. let (b, c) = a.whole e in (b, ap suc c);
      unshut = a.unshut;
      orderly = a.orderly;
    }
    flushed-IsAhead (w, some kind) q h a = record {
      received = h ∙ a.received;
      prints = a.prints;
      within = a.within;
      whole = λ d. cc;
      unshut = a.unshut;
      orderly = λ e. cc;
    }

    slice-IsAhead :
        (fuel start end n : ℕ) (p : Progress socket print)
        → start < end
        → end ≤ length bytes
        → p.ended ≡ done
        → IsAhead start n p
        → IsAhead end n (write_slice socket print fuel (slice start end bytes) p)
    unfolding slice write_slice
    slice-IsAhead fuel start end n p up room ok a =
        let inside : (leb start end && leb end (length bytes)) ≡ true = ground arith in
        let (at, count) = a.whole ok in
        let part = take (end - start) (drop start bytes) in
        let w = write_counted-IsWritten socket print fuel part p in
        let len : length part ≡ end - start =
          omega (arith, length-take (end - start) (drop start bytes), length-drop start bytes) in
        let sent : take p.written bytes ++ take w.count part
            ≡ take (write_counted socket print fuel part p).written bytes =
          take_piece bytes start w.count (end - start) p.written at (omega (arith, w.within, len))
          ∙ ap (λ k. take k bytes) (sym w.grown) in
        rw inside (record {
          received =
              w.received
              ∙ ap (λ x. x ++ take w.count part) a.received
              ∙ append_assoc (socket.received s) (take p.written bytes) (take w.count part)
              ∙ ap (λ x. socket.received s ++ x) sent;
          prints =
              w.prints
              ∙ ap (λ x. print.update x (take w.count part)) a.prints
              ∙ print.update-append f (take p.written bytes) (take w.count part)
              ∙ ap (print.update f) sent;
          within = omega (arith, w.grown, w.within, len, at);
          whole = λ e. (omega (arith, w.grown, w.whole e, len, at), w.kept.0 ∙ count);
          unshut = w.kept.1 ∙ a.unshut;
          orderly = w.orderly;
        })

    chunk-IsAhead :
        (fuel start end n : ℕ) (p : Progress socket print)
        → start < end
        → end ≤ length bytes
        → p.ended ≡ done
        → IsAhead start n p
        → IsAhead end (suc n) (write_chunk socket print fuel bytes start end p)
    unfolding write_chunk flush_chunk
    chunk-IsAhead fuel start end n p up room ok a =
        let p' : Progress socket print = record p { stage = some write } in
        let a' : IsAhead start n p' = record {
          received = a.received;
          prints = a.prints;
          within = a.within;
          whole = a.whole;
          unshut = a.unshut;
          orderly = a.orderly;
        } in
        let q = write_slice socket print fuel (slice start end bytes) p' in
        let b = slice-IsAhead fuel start end n p' up room ok a' in
        let q' : Progress socket print = record q { stage = some flush } in
        let b' : IsAhead end n q' = record {
          received = b.received;
          prints = b.prints;
          within = b.within;
          whole = b.whole;
          unshut = b.unshut;
          orderly = b.orderly;
        } in
        on-IsAhead q.ended q (flush_chunk socket print) refl b
          (λ e. flushed-IsAhead (socket.flush q.writer) q' (socket.received-flush q.writer) b')

    chunks-IsAhead :
        (fuel start n m : ℕ) (ends : List ℕ) (p : Progress socket print)
        → Covers start ends (length bytes)
        → n + length ends ≡ m
        → p.ended ≡ done
        → IsAhead start n p
        → IsAhead (length bytes) m (write_chunks socket print fuel bytes start ends p)
    unfolding write_chunks
    chunks-IsAhead fuel start n m [] p c k ok a = record {
      received = a.received;
      prints = a.prints;
      within = a.within;
      whole = λ e. let (at, count) = a.whole e in (at ∙ c, omega (arith, count, k));
      unshut = a.unshut;
      orderly = a.orderly;
    }
    chunks-IsAhead fuel start n m (end ∷ ends) p (up, c) k ok a =
        let q = write_chunk socket print fuel bytes start end p in
        let b = chunk-IsAhead fuel start end n p up (Covers-le end (length bytes) ends c) ok a in
        on-IsAhead q.ended q (write_chunks socket print fuel bytes end ends) refl b
          (λ e. chunks-IsAhead fuel end (suc n) m ends q c (omega (arith, k)) e b)

    record IsOver (plan : DeliveryPlan) (q : Progress socket print) : Type 0 where
      received : socket.received q.writer ≡ socket.received s ++ take q.written bytes
      prints : q.fingerprint ≡ print.update f (take q.written bytes)
      within : q.written ≤ length bytes
      whole :
          q.ended ≡ done
          → (q.written ≡ length bytes)
            × (q.chunks ≡ length plan.chunk_ends)
            × (q.shut ≡ is_some plan.truncate_at)
      orderly : q.ended ≢ panicked

    closed-IsOver :
        (plan : DeliveryPlan) (d : socket.State × Option ErrorKind) (q : Progress socket print)
        → socket.received d.0 ≡ socket.received q.writer
        → is_some plan.truncate_at ≡ true
        → IsAhead (length bytes) (length plan.chunk_ends) q
        → IsOver plan (closed socket print d q)
    unfolding closed
    closed-IsOver plan (w, none) q h cut a = record {
      received = h ∙ a.received;
      prints = a.prints;
      within = a.within;
      whole = λ e. let (b, c) = a.whole e in (b, c, sym cut);
      orderly = a.orderly;
    }
    closed-IsOver plan (w, some kind) q h cut a = record {
      received = h ∙ a.received;
      prints = a.prints;
      within = a.within;
      whole = λ e. cc;
      orderly = λ e. cc;
    }

    shut-IsOver :
        (plan : DeliveryPlan) (cut : Option ℕ) (q : Progress socket print)
        → plan.truncate_at ≡ cut
        → IsAhead (length bytes) (length plan.chunk_ends) q
        → IsOver plan (shut_down socket print cut q)
    unfolding shut_down
    shut-IsOver plan none q h a = record {
      received = a.received;
      prints = a.prints;
      within = a.within;
      whole = λ e. let (b, c) = a.whole e in (b, c, rw h a.unshut);
      orderly = a.orderly;
    }
    shut-IsOver plan (some n) q h a =
        let q' : Progress socket print = record q { stage = some shutdown } in
        let a' : IsAhead (length bytes) (length plan.chunk_ends) q' = record {
          received = a.received;
          prints = a.prints;
          within = a.within;
          whole = a.whole;
          unshut = a.unshut;
          orderly = a.orderly;
        } in
        closed-IsOver plan (socket.shutdown q.writer) q' (socket.received-shutdown q.writer)
          (ap is_some h) a'

    on-IsOver :
        (plan : DeliveryPlan) (e : Ended) (q : Progress socket print)
        → q.ended ≡ e
        → IsAhead (length bytes) (length plan.chunk_ends) q
        → IsOver plan (on socket print e q (shut_down socket print plan.truncate_at))
    unfolding on
    on-IsOver plan done q h a = shut-IsOver plan plan.truncate_at q refl a
    on-IsOver plan pending q h a = record {
      received = a.received;
      prints = a.prints;
      within = a.within;
      whole = λ d. cc;
      orderly = a.orderly;
    }
    on-IsOver plan panicked q h a = absurd (a.orderly h)
    on-IsOver plan (failed kind) q h a = record {
      received = a.received;
      prints = a.prints;
      within = a.within;
      whole = λ d. cc;
      orderly = a.orderly;
    }

    started-IsAhead : IsAhead 0 0 (started socket print s f)
    unfolding started
    started-IsAhead = record {
      received = sym (append-nil (socket.received s));
      prints = sym (print.update-nil f);
      within = omega arith;
      whole = λ e. (refl, refl);
      unshut = refl;
      orderly = λ e. cc;
    }

    run-IsOver :
        (fuel : ℕ) (plan : DeliveryPlan)
        → Covers 0 plan.chunk_ends (length bytes)
        → IsOver plan (run socket print fuel s f bytes plan)
    unfolding run started
    run-IsOver fuel plan c = on-IsOver plan _ _ refl (
        chunks-IsAhead fuel 0 0 (length plan.chunk_ends) plan.chunk_ends (started socket print s f)
          c (omega arith) refl started-IsAhead)

    -- The peer was sent, and the fingerprint fed, exactly the first `written` bytes, and no slice
    -- was out of range.
    pub record IsAccounted (q : Progress socket print) : Type 0 where
      pub received : socket.received q.writer ≡ socket.received s ++ take q.written bytes
      pub prints : q.fingerprint ≡ print.update f (take q.written bytes)
      pub within : q.written ≤ length bytes
      pub orderly : q.ended ≢ panicked

    pub run-IsAccounted :
        (fuel : ℕ) (plan : DeliveryPlan)
        → Covers 0 plan.chunk_ends (length bytes)
        → IsAccounted (run socket print fuel s f bytes plan)
    run-IsAccounted fuel plan c =
        let o = run-IsOver fuel plan c in
        record { received = o.received; prints = o.prints; within = o.within; orderly = o.orderly }

    pub run_whole :
        (fuel : ℕ) (plan : DeliveryPlan)
        → Covers 0 plan.chunk_ends (length bytes)
        → (run socket print fuel s f bytes plan).ended ≡ done
        → ((run socket print fuel s f bytes plan).written ≡ length bytes)
          × ((run socket print fuel s f bytes plan).chunks ≡ length plan.chunk_ends)
          × ((run socket print fuel s f bytes plan).shut ≡ is_some plan.truncate_at)
    run_whole fuel plan c e = (run-IsOver fuel plan c).whole e
