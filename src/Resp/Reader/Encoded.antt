-- ===== src/Resp/Reader/Encoded.antt =====
-- The reader takes exactly one encoded frame off a stream.
use evilresp.Base.Bytes.{Bytes, codes, crlf, lf}
use evilresp.Base.Decimal.{decimal, decimal_int, parse_i64}
use evilresp.Base.Utf8.{is_utf8}
use evilresp.Base.{
  ℕ, zero, suc, ◌+◌, ◌*◌, ◌≤◌, ◌≡◌, refl, ap, ◌∙◌, arith, Bool, true, false, ◌&&◌, List, [], ◌∷◌,
  ◌++◌, some, none, append_assoc, append-nil, length, length-append, all, &&-true,
}
use evilresp.Resp.Canonical.{
  is_word, no_space, is_other, canonical, canonical_items, canonical_pairs,
}
use evilresp.Resp.Encode.{spaced}
use evilresp.Resp.Frame.{
  Frame, Frames, Pairs, simple_string, simple_error, integer, bulk_string, array, null_array, null,
  boolean, double, big_number, bulk_error, verbatim_string, map, set, push, attribute, inline, nil,
  cons, end, pair, count, count_pairs,
}
use evilresp.Resp.Lines.{decimal_int-plain}
use evilresp.Resp.RoundTrip.{is_other→eq}
use evilresp.Resp.Parse.{other, prefix_of, max_frame_depth}
use evilresp.Resp.Reader.Pieces.{no_lf, after, plain-no_lf, read_one-line}
use evilresp.Resp.Reader.Rounds.{
  lf_free, lf_free_items, lf_free_pairs, rounds, rounds_items, rounds_pairs, at, HasRoom, IsBlob,
  read_one-blob,
}
use evilresp.Resp.Reader.{
  ok, optional_body, optional_children, Stream, parse_len, read_rest, read_loop,
}
use evilresp.Resp.Wire.{wire, wire_items, wire_pairs, depth}
use evilresp.Resp.Reader.Levels.{
  leaf, IsLine, line_leaf, ReadsFrame, ReadsItems, ReadsPairs, sequence-frame, map-frame,
}

inline_leads : (c : ℕ) → is_other (prefix_of c) ≡ true → IsLine c
unfolding read_rest
inline_leads c h line pending s =
    let same : prefix_of c ≡ other = is_other→eq (prefix_of c) h in rw same

no_space-no_lf : (s : Bytes) → no_space s ≡ true → no_lf s ≡ true
no_space-no_lf [] h = refl
no_space-no_lf (c ∷ s) h =
    let (hc, hs) = &&-true _ (no_space s) h in rw (no_space-no_lf s hs) (ground arith)

no_lf-append : (s t : Bytes) → no_lf s ≡ true → no_lf t ≡ true → no_lf (s ++ t) ≡ true
no_lf-append [] t h k = k
no_lf-append (c ∷ s) t h k = let (hc, hs) = &&-true _ (no_lf s) h in rw hc (no_lf-append s t hs k)

word-no_lf : (w : Bytes) → is_word w ≡ true → no_lf w ≡ true
word-no_lf [] h = refl
word-no_lf (c ∷ cs) h = no_space-no_lf (c ∷ cs) h

spaced-no_lf : (ps : List Bytes) → all is_word ps ≡ true → no_lf (spaced ps) ≡ true
spaced-no_lf [] h = refl
spaced-no_lf (p ∷ ps) h =
    let (hp, hps) = &&-true (is_word p) (all is_word ps) h in
    no_lf-append p (spaced ps) (word-no_lf p hp) (spaced-no_lf ps hps)

inline-frame : (c : ℕ) (cs : Bytes) (parts : List Bytes) → ReadsFrame (inline ((c ∷ cs) ∷ parts))
unfolding rounds wire depth canonical
inline-frame c cs parts fuel k m ps raw rest e can l d room =
    let (lead, words) = &&-true (is_other (prefix_of c)) (all is_word ((c ∷ cs) ∷ parts)) can in
    let (first, others) = &&-true (is_word (c ∷ cs)) (all is_word parts) words in
    let (hc, hcs) = &&-true _ (no_lf cs) (no_space-no_lf (c ∷ cs) first) in
    line_leaf c fuel k m ps raw (cs ++ spaced parts) rest (inline_leads c lead) (omega arith)
      (no_lf-append cs (spaced parts) hcs (spaced-no_lf parts others)) (omega arith) room

blob-frame :
    (c : ℕ) (nullable : Bool) (b : Bytes) (fuel k m : ℕ) (ps : List ℕ) (raw rest : Bytes)
    → IsBlob c nullable
    → fuel ≡ suc k
    → length ps + 1 ≤ max_frame_depth
    → HasRoom raw (c ∷ ((decimal (length b) ++ crlf) ++ (b ++ crlf)))
    → read_loop fuel
        (suc m ∷ ps)
        (at raw (c ∷ (((decimal (length b) ++ crlf) ++ (b ++ crlf)) ++ rest)))
      ≡ read_loop k (m ∷ ps) (after raw (c ∷ ((decimal (length b) ++ crlf) ++ (b ++ crlf))) rest)
blob-frame c nullable b fuel k m ps raw rest kind e d room =
    leaf fuel k m ps _ _ e (read_one-blob c nullable (m ∷ ps) raw b rest kind (omega arith) room)

null_line : parse_len (codes "-1") true ≡ ok none
unfolding parse_len is_utf8 parse_i64
null_line = refl

-- The header `-1` of a missing blob or array.
null-frame :
    (c fuel k m : ℕ) (ps : List ℕ) (raw rest : Bytes)
    → ((pending : List ℕ) (s : Stream)
        → read_rest (prefix_of c) (codes "-1") pending s ≡ ok (pending, s))
    → fuel ≡ suc k
    → length ps + 1 ≤ max_frame_depth
    → HasRoom raw (c ∷ (codes "-1" ++ crlf))
    → read_loop fuel (suc m ∷ ps) (at raw (c ∷ ((codes "-1" ++ crlf) ++ rest)))
      ≡ read_loop k (m ∷ ps) (after raw (c ∷ (codes "-1" ++ crlf)) rest)
null-frame c fuel k m ps raw rest leads e d room = leaf fuel k m ps _ _ e (
    read_one-line c (m ∷ ps) raw (codes "-1") rest refl (omega arith) (omega arith)
    ∙ leads (m ∷ ps) _)

mutual
  unfolding rounds wire depth canonical lf_free read_rest prefix_of optional_body optional_children

  pub read_loop-frame : (f : Frame) → ReadsFrame f
  read_loop-frame (simple_string v) fuel k m ps raw rest e c l d room =
      line_leaf b'+' fuel k m ps raw v rest (λ _ _ _. refl) (omega arith) l d room
  read_loop-frame (simple_error v) fuel k m ps raw rest e c l d room =
      line_leaf b'-' fuel k m ps raw v rest (λ _ _ _. refl) (omega arith) l d room
  read_loop-frame (double v) fuel k m ps raw rest e c l d room =
      line_leaf b',' fuel k m ps raw v rest (λ _ _ _. refl) (omega arith) l d room
  read_loop-frame (big_number v) fuel k m ps raw rest e c l d room =
      line_leaf b'(' fuel k m ps raw v rest (λ _ _ _. refl) (omega arith) l d room
  read_loop-frame (integer z) fuel k m ps raw rest e c l d room =
      line_leaf b':' fuel k m ps raw (decimal_int z) rest (λ _ _ _. refl) (omega arith)
        (plain-no_lf (decimal_int z) (decimal_int-plain z)) d room
  read_loop-frame null fuel k m ps raw rest e c l d room =
      line_leaf b'_' fuel k m ps raw [] rest (λ _ _ _. refl) (omega arith) refl d room
  read_loop-frame (boolean true) fuel k m ps raw rest e c l d room =
      line_leaf b'#' fuel k m ps raw (codes "t") rest (λ _ _ _. refl) (omega arith) refl d room
  read_loop-frame (boolean false) fuel k m ps raw rest e c l d room =
      line_leaf b'#' fuel k m ps raw (codes "f") rest (λ _ _ _. refl) (omega arith) refl d room
  read_loop-frame (bulk_string none) fuel k m ps raw rest e c l d room =
      null-frame b'$' fuel k m ps raw rest (λ _ _. rw null_line) (omega arith) d room
  read_loop-frame null_array fuel k m ps raw rest e c l d room =
      null-frame b'*' fuel k m ps raw rest (λ _ _. rw null_line) (omega arith) d room
  read_loop-frame (bulk_string (some b)) fuel k m ps raw rest e c l d room =
      blob-frame b'$' true b fuel k m ps raw rest (λ _ _ _. refl) (omega arith) d room
  read_loop-frame (bulk_error b) fuel k m ps raw rest e c l d room =
      blob-frame b'!' false b fuel k m ps raw rest (λ _ _ _. refl) (omega arith) d room
  read_loop-frame (verbatim_string b) fuel k m ps raw rest e c l d room =
      blob-frame b'=' false b fuel k m ps raw rest (λ _ _ _. refl) (omega arith) d room
  read_loop-frame (array fs) fuel k m ps raw rest e c l d room =
      sequence-frame b'*' true fs fuel k m ps raw rest (λ _ _ _. refl) (read_loop-items fs) e c l d
        room
  read_loop-frame (set fs) fuel k m ps raw rest e c l d room =
      sequence-frame b'~' false fs fuel k m ps raw rest (λ _ _ _. refl) (read_loop-items fs) e c l d
        room
  read_loop-frame (push fs) fuel k m ps raw rest e c l d room =
      sequence-frame b'>' false fs fuel k m ps raw rest (λ _ _ _. refl) (read_loop-items fs) e c l d
        room
  read_loop-frame (map qs) fuel k m ps raw rest e c l d room =
      map-frame b'%' false qs fuel k m ps raw rest (λ _ _ _. refl) (read_loop-pairs qs) e c l d room
  read_loop-frame (attribute qs) fuel k m ps raw rest e c l d room =
      map-frame b'|' false qs fuel k m ps raw rest (λ _ _ _. refl) (read_loop-pairs qs) e c l d room
  read_loop-frame (inline []) fuel k m ps raw rest e c l d room = cc
  read_loop-frame (inline ([] ∷ parts)) fuel k m ps raw rest e c l d room = cc
  read_loop-frame (inline ((b ∷ bs) ∷ parts)) fuel k m ps raw rest e c l d room =
      inline-frame b bs parts fuel k m ps raw rest e c l d room

  read_loop-items : (fs : Frames) → ReadsItems fs
  read_loop-items nil k ps raw rest c l d room =
      let same : 0 + k ≡ k = omega arith in rw (same, append-nil)
  read_loop-items (cons f fs) k ps raw rest c l d room =
      let (cf, cfs) = &&-true (canonical f) (canonical_items fs) c in
      let (lf, lfs) = &&-true (lf_free f) (lf_free_items fs) l in
      let size = length-append (wire f) (wire_items fs) in
      let size' = length-append raw (wire f) in
      rw (append_assoc (wire f) (wire_items fs) rest) (
        read_loop-frame f _ (rounds_items fs + k) (count fs) ps raw (wire_items fs ++ rest)
          (omega arith) cf lf (omega arith) (omega (arith, size))
        ∙ read_loop-items fs k ps (raw ++ wire f) rest cfs lfs (omega arith)
            (omega (arith, size, size'))
        ∙ ap (λ bytes. read_loop k (zero ∷ ps) (at bytes rest))
            (append_assoc raw (wire f) (wire_items fs)))

  read_loop-pairs : (qs : Pairs) → ReadsPairs qs
  read_loop-pairs end k n ps raw rest e c l d room =
      let same : 0 + k ≡ k = omega arith in
      let none_left : n ≡ zero = omega arith in rw (same, none_left, append-nil)
  read_loop-pairs (pair key v qs) k n ps raw rest e c l d room =
      let (ckv, cqs) = &&-true (canonical key && canonical v) (canonical_pairs qs) c in
      let (ck, cv) = &&-true (canonical key) (canonical v) ckv in
      let (lkv, lqs) = &&-true (lf_free key && lf_free v) (lf_free_pairs qs) l in
      let (lk, lv) = &&-true (lf_free key) (lf_free v) lkv in
      let left : n ≡ suc (suc (count_pairs qs * 2)) = omega arith in
      let size = length-append (wire key) (wire v ++ wire_pairs qs) in
      let size' = length-append (wire v) (wire_pairs qs) in
      let size'' = length-append raw (wire key) in
      rw (left, append_assoc (wire key) (wire v ++ wire_pairs qs) rest)
        (read_loop-frame key _ (rounds v + rounds_pairs qs + k) (suc (count_pairs qs * 2)) ps raw
            ((wire v ++ wire_pairs qs) ++ rest) (omega arith) ck lk (omega arith)
            (omega (arith, size))
          ∙ rw (append_assoc (wire v) (wire_pairs qs) rest) (
              read_loop-frame v _ (rounds_pairs qs + k) (count_pairs qs * 2) ps (raw ++ wire key)
                (wire_pairs qs ++ rest) (omega arith) cv lv (omega arith)
                (omega (arith, size, size', size''))
              ∙ read_loop-pairs qs k (count_pairs qs * 2) ps ((raw ++ wire key) ++ wire v) rest refl
                  cqs lqs (omega arith)
                  (omega (arith, size, size', size'', length-append (raw ++ wire key) (wire v)))
              ∙ ap (λ bytes. read_loop k (zero ∷ ps) (at bytes rest))
                  (append_assoc (raw ++ wire key) (wire v) (wire_pairs qs)
                    ∙ append_assoc raw (wire key) (wire v ++ wire_pairs qs))))
