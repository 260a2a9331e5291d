-- ===== src/Transport/Written.antt =====
-- What `write_counted` has sent, however the socket answered.
use evilresp.Base.Bytes.{Bytes}
use evilresp.Base.{
  ℕ, zero, suc, ◌+◌, ◌≤◌, ◌≡◌, ◌≢◌, refl, arith, sym, ◌∙◌, [], ◌∷◌, ◌++◌, append-nil, append_assoc,
  length, take, drop, length-drop, take-add,
}
use evilresp.Transport.Deliver.{
  interrupted, write_zero, other, Answer, accepted, failed, done, panicked, taken_of, Fits, Socket,
  Fingerprint, Progress, answered, write_counted,
}

module _ (socket : Socket) (print : Fingerprint) where
  -- From `p` to `q` the first `count` bytes of `part` went out behind `base`.
  pub record IsWritten (base part : Bytes) (p q : Progress socket print) : Type 0 where
    pub count : ℕ
    pub within : count ≤ length part
    pub grown : q.written ≡ p.written + count
    pub received : socket.received q.writer ≡ base ++ take count part
    pub prints : q.fingerprint ≡ print.update p.fingerprint (take count part)
    pub whole : q.ended ≡ done → count ≡ length part
    pub kept : (q.chunks ≡ p.chunks) × (q.shut ≡ p.shut)
    pub orderly : q.ended ≢ panicked

  unwritten :
      (base part : Bytes) (p q : Progress socket print)
      → socket.received q.writer ≡ base ++ []
      → q.written ≡ p.written
      → q.fingerprint ≡ p.fingerprint
      → (q.chunks ≡ p.chunks) × (q.shut ≡ p.shut)
      → (q.ended ≡ done → 0 ≡ length part)
      → q.ended ≢ panicked
      → IsWritten base part p q
  unwritten base part p q same count prints kept whole orderly = record {
    count = 0;
    within = omega arith;
    grown = omega (arith, count);
    received = same;
    prints = prints ∙ sym (print.update-nil p.fingerprint);
    whole = whole;
    kept = kept;
    orderly = orderly;
  }

  answered-IsWritten :
      (again : Bytes → Progress socket print → Progress socket print)
      (ih : (part : Bytes) (p : Progress socket print)
        → IsWritten (socket.received p.writer) part p (again part p))
      (base : Bytes) (a : Answer) (part : Bytes) (p : Progress socket print)
      → Fits a part
      → socket.received p.writer ≡ base ++ taken_of a part
      → IsWritten base part p (answered socket print again a part p)
  unfolding answered
  answered-IsWritten again ih base (accepted zero) part p f h =
      unwritten base part p _ h refl refl (refl, refl) (λ e. cc) (λ e. cc)
  answered-IsWritten again ih base (accepted (suc n)) part p f h =
      let p' : Progress socket print = record p {
        fingerprint = print.update p.fingerprint (take (suc n) part);
        written = p.written + suc n;
      } in
      let w = ih (drop (suc n) part) p' in
      let left = length-drop (suc n) part in
      let joined = take-add (suc n) w.count part in
      record {
        count = suc n + w.count;
        within = omega (arith, w.within);
        grown = omega (arith, w.grown);
        received = rw (w.received, h, joined) (append_assoc base _ _);
        prints = rw (w.prints, joined) (print.update-append p.fingerprint _ _);
        whole = λ e. omega (arith, w.whole e);
        kept = w.kept;
        orderly = w.orderly;
      }
  answered-IsWritten again ih base (failed interrupted) part p f h =
      let w = ih part p in
      record {
        count = w.count;
        within = w.within;
        grown = w.grown;
        received = rw (w.received, h, append-nil base) refl;
        prints = w.prints;
        whole = w.whole;
        kept = w.kept;
        orderly = w.orderly;
      }
  answered-IsWritten again ih base (failed write_zero) part p f h =
      unwritten base part p _ h refl refl (refl, refl) (λ e. cc) (λ e. cc)
  answered-IsWritten again ih base (failed (other k)) part p f h =
      unwritten base part p _ h refl refl (refl, refl) (λ e. cc) (λ e. cc)

  pub write_counted-IsWritten :
      (fuel : ℕ) (part : Bytes) (p : Progress socket print)
      → IsWritten (socket.received p.writer) part p (write_counted socket print fuel part p)
  unfolding write_counted
  write_counted-IsWritten fuel [] p =
      unwritten _ [] p _ (sym (append-nil _)) refl refl (refl, refl) (λ e. refl) (λ e. cc)
  write_counted-IsWritten zero (b ∷ part) p =
      unwritten _ (b ∷ part) p _ (sym (append-nil _)) refl refl (refl, refl) (λ e. cc) (λ e. cc)
  write_counted-IsWritten (suc fuel) (b ∷ part) p =
      let answer = socket.write p.writer (b ∷ part) in
      let w =
        answered-IsWritten (write_counted socket print fuel) (write_counted-IsWritten fuel)
          (socket.received p.writer) answer.1 (b ∷ part) (record p { writer = answer.0 })
          (socket.write-Fits p.writer (b ∷ part)) (socket.received-write p.writer (b ∷ part)) in
      record {
        count = w.count;
        within = w.within;
        grown = w.grown;
        received = w.received;
        prints = w.prints;
        whole = w.whole;
        kept = w.kept;
        orderly = w.orderly;
      }
