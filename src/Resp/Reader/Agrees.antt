-- ===== src/Resp/Reader/Agrees.antt =====
-- The reader, the encoder and the parser agree on where a frame ends.
use evilresp.Base.Bytes.{Bytes, crlf}
use evilresp.Base.Decimal.{decimal}
use evilresp.Base.{
  ℕ, zero, suc, ◌+◌, ◌-◌, ◌*◌, ◌≤◌, ◌≡◌, refl, ◌∙◌, arith, true, ◌&&◌, [], ◌∷◌, ◌++◌, length,
  length-append, &&-true,
}
use evilresp.Resp.Canonical.{canonical, canonical_items, canonical_pairs, three-le-wire}
use evilresp.Resp.Encode.{encode}
use evilresp.Resp.Frame.{
  Frame, Frames, Pairs, array, map, set, push, attribute, nil, cons, end, pair, count, count_pairs,
}
use evilresp.Resp.Parse.{max_frame_bytes, max_frame_depth}
use evilresp.Resp.Reader.Encoded.{read_loop-frame}
use evilresp.Resp.Reader.Rounds.{
  lf_free, rounds, rounds_items, rounds_pairs, rounds_level, rounds_pair_level, at,
}
use evilresp.Resp.Reader.{ok, Stream, read_loop, read_raw_frame}
use evilresp.Resp.Wire.{wire, wire_items, wire_pairs, depth, encode-wire}

rounds_level-le : (fs : Frames) → rounds_level fs ≤ suc (rounds_items fs)
unfolding rounds
rounds_level-le nil = omega arith
rounds_level-le (cons f fs) = omega arith

rounds_pair_level-le : (qs : Pairs) → rounds_pair_level qs ≤ suc (rounds_pairs qs)
unfolding rounds
rounds_pair_level-le end = omega arith
rounds_pair_level-le (pair k v qs) = omega arith

-- The length of a header line and what follows it.
headed :
    (n : ℕ) (body : Bytes)
    → length ((decimal n ++ crlf) ++ body) ≡ length (decimal n) + 2 + length body
headed n body =
    omega (arith, length-append (decimal n ++ crlf) body, length-append (decimal n) crlf)

mutual
  unfolding rounds wire canonical

  rounds-le-wire : (f : Frame) → canonical f ≡ true → rounds f ≤ length (wire f)
  rounds-le-wire (array fs) c =
      omega
        (arith, headed (count fs) (wire_items fs), rounds_level-le fs, rounds_items-le-wire fs c)
  rounds-le-wire (set fs) c =
      omega
        (arith, headed (count fs) (wire_items fs), rounds_level-le fs, rounds_items-le-wire fs c)
  rounds-le-wire (push fs) c =
      omega
        (arith, headed (count fs) (wire_items fs), rounds_level-le fs, rounds_items-le-wire fs c)
  rounds-le-wire (map qs) c = omega (
    arith,
    headed (count_pairs qs) (wire_pairs qs),
    rounds_pair_level-le qs,
    rounds_pairs-le-wire qs c,
  )
  rounds-le-wire (attribute qs) c = omega (
    arith,
    headed (count_pairs qs) (wire_pairs qs),
    rounds_pair_level-le qs,
    rounds_pairs-le-wire qs c,
  )
  rounds-le-wire f c = omega (arith, three-le-wire f c)

  rounds_items-le-wire :
      (fs : Frames) → canonical_items fs ≡ true → rounds_items fs ≤ length (wire_items fs)
  rounds_items-le-wire nil c = omega arith
  rounds_items-le-wire (cons f fs) c =
      let (cf, cfs) = &&-true (canonical f) (canonical_items fs) c in
      omega (
        arith,
        length-append (wire f) (wire_items fs),
        rounds-le-wire f cf,
        rounds_items-le-wire fs cfs,
      )

  rounds_pairs-le-wire :
      (qs : Pairs) → canonical_pairs qs ≡ true → rounds_pairs qs ≤ length (wire_pairs qs)
  rounds_pairs-le-wire end c = omega arith
  rounds_pairs-le-wire (pair k v qs) c =
      let (ckv, cqs) = &&-true (canonical k && canonical v) (canonical_pairs qs) c in
      let (ck, cv) = &&-true (canonical k) (canonical v) ckv in
      omega (
        arith,
        length-append (wire k) (wire v ++ wire_pairs qs),
        length-append (wire v) (wire_pairs qs),
        rounds-le-wire k ck,
        rounds-le-wire v cv,
        rounds_pairs-le-wire qs cqs,
      )

read_loop_done : (k : ℕ) (s : Stream) → read_loop (suc (suc k)) (zero ∷ []) s ≡ ok s
unfolding read_loop
read_loop_done k s = refl

read_wire :
    (f : Frame) (rest : Bytes)
    → canonical f ≡ true
    → lf_free f ≡ true
    → depth f ≤ max_frame_depth
    → length (wire f) ≤ max_frame_bytes
    → read_raw_frame (wire f ++ rest) ≡ ok (at (wire f) rest)
unfolding read_raw_frame
read_wire f rest c l d s =
    let n = 2 * length (wire f ++ rest) + 3 in
    let left : ℕ = n - rounds f - 2 in
    let fits : n ≡ rounds f + suc (suc left) =
      omega (arith, rounds-le-wire f c, length-append (wire f) rest) in
    read_loop-frame f n (suc (suc left)) zero [] [] rest fits c l (omega arith) (omega arith)
    ∙ read_loop_done left (at (wire f) rest)

-- Off a stream that starts with the encoding of a canonical frame, whose lines hold no line feed
-- and which is within 128 levels and 64 MiB, the reader takes that encoding and leaves the rest.
pub read_raw_frame-encode :
    (f : Frame) (rest : Bytes)
    → canonical f ≡ true
    → lf_free f ≡ true
    → depth f ≤ max_frame_depth
    → length (encode f) ≤ max_frame_bytes
    → read_raw_frame (encode f ++ rest) ≡ ok (record { raw = encode f; input = rest })
read_raw_frame-encode f rest c l d s =
    rw (encode-wire f) (read_wire f rest c l d (rw (← encode-wire f) s))
