-- ===== src/Resp/Words.antt =====
-- Inline commands: the line splits into the parts that were joined.
use evilresp.Base.Bytes.{Bytes, cr}
use evilresp.Base.{
  ℕ, ◌≡◌, refl, ap, ◌∙◌, arith, Bool, true, false, not, List, [], ◌∷◌, ◌++◌, append_assoc,
  append-nil, ◌==◌, all, &&-true, not-true,
}
use evilresp.Resp.Canonical.{is_word, no_space}
use evilresp.Resp.Encode.{spaced, join_parts}
use evilresp.Resp.Lines.{has_crlf}
use evilresp.Resp.Parse.{split_words, shell_words}

split_words-no_space :
    (b : ℕ) (part w rest : Bytes)
    → no_space w ≡ true
    → split_words (b ∷ part) (w ++ rest) ≡ split_words (b ∷ (part ++ w)) rest
unfolding split_words
split_words-no_space b part [] rest h = rw append-nil
split_words-no_space b part (c ∷ w) rest h =
    let (hc, hw) = &&-true _ (no_space w) h in
    rw (not-true _ hc) (split_words-no_space b (part ++ c ∷ []) w rest hw ∙ rw append_assoc)

split_words-word :
    (c : ℕ) (cs rest : Bytes)
    → no_space (c ∷ cs) ≡ true
    → split_words [] ((c ∷ cs) ++ rest) ≡ split_words (c ∷ cs) rest
unfolding split_words
split_words-word c cs rest h =
    let (hc, hcs) = &&-true _ (no_space cs) h in
    rw (not-true _ hc) (split_words-no_space c [] cs rest hcs)

split_words-spaced :
    (b : ℕ) (part : Bytes) (ps : List Bytes)
    → all is_word ps ≡ true
    → split_words (b ∷ part) (spaced ps) ≡ (b ∷ part) ∷ ps
unfolding split_words
split_words-spaced b part [] h = refl
split_words-spaced b part ([] ∷ ps) h = cc
split_words-spaced b part ((c ∷ cs) ∷ ps) h =
    let (hw, hps) = &&-true (is_word (c ∷ cs)) (all is_word ps) h in
    ap (◌∷◌ (b ∷ part)) (split_words-word c cs (spaced ps) hw ∙ split_words-spaced c cs ps hps)

-- Splitting a joined line at whitespace gives back its parts.
pub shell_words-join_parts :
    (c : ℕ) (cs : Bytes) (ps : List Bytes)
    → all is_word ((c ∷ cs) ∷ ps) ≡ true
    → shell_words (join_parts ((c ∷ cs) ∷ ps)) ≡ (c ∷ cs) ∷ ps
unfolding shell_words
shell_words-join_parts c cs ps h =
    let (hw, hps) = &&-true (is_word (c ∷ cs)) (all is_word ps) h in
    split_words-word c cs (spaced ps) hw ∙ split_words-spaced c cs ps hps

abbrev not_cr : ℕ → Bool
not_cr c = not (c == cr)

not_cr-has_crlf : (s : Bytes) → all not_cr s ≡ true → has_crlf s ≡ false
unfolding has_crlf
not_cr-has_crlf [] h = refl
not_cr-has_crlf (c ∷ []) h = refl
not_cr-has_crlf (c ∷ d ∷ s) h = ground (arith, not_cr-has_crlf (d ∷ s))

not_cr-append :
    (s t : Bytes) → all not_cr s ≡ true → all not_cr t ≡ true → all not_cr (s ++ t) ≡ true
not_cr-append [] t h k = k
not_cr-append (c ∷ s) t h k =
    let (hc, hs) = &&-true (not_cr c) (all not_cr s) h in rw hc (not_cr-append s t hs k)

no_space-not_cr : (s : Bytes) → no_space s ≡ true → all not_cr s ≡ true
no_space-not_cr [] h = refl
no_space-not_cr (c ∷ s) h =
    let (hc, hs) = &&-true _ (no_space s) h in rw (no_space-not_cr s hs) (ground arith)

word-not_cr : (w : Bytes) → is_word w ≡ true → all not_cr w ≡ true
word-not_cr [] h = refl
word-not_cr (c ∷ cs) h = no_space-not_cr (c ∷ cs) h

spaced-not_cr : (ps : List Bytes) → all is_word ps ≡ true → all not_cr (spaced ps) ≡ true
spaced-not_cr [] h = refl
spaced-not_cr (p ∷ ps) h =
    let (hp, hps) = &&-true (is_word p) (all is_word ps) h in
    not_cr-append p (spaced ps) (word-not_cr p hp) (spaced-not_cr ps hps)

pub join_parts-has_crlf :
    (ps : List Bytes) → all is_word ps ≡ true → has_crlf (join_parts ps) ≡ false
unfolding has_crlf
join_parts-has_crlf [] h = refl
join_parts-has_crlf (p ∷ ps) h =
    let (hp, hps) = &&-true (is_word p) (all is_word ps) h in
    not_cr-has_crlf (p ++ spaced ps)
      (not_cr-append p (spaced ps) (word-not_cr p hp) (spaced-not_cr ps hps))
