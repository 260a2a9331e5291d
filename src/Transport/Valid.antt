-- ===== src/Transport/Valid.antt =====
-- Every configuration that `DEBUG EVIL TRANSPORT` accepts is valid.
use evilresp.Base.Bytes.{Bytes, codes, equal, to_ascii_uppercase}
use evilresp.Base.Options.{bind-eq-some, if_none-eq-some, of_some}
use evilresp.Base.{
  ℕ, suc, ◌+◌, ◌<◌, ◌≤◌, ◌≡◌, refl, arith, inl, inr, ◌||◌, List, [], ◌∷◌, Option, none, some,
  length, leb, ◌==◌, Bool-cases,
}
use evilresp.Random.{Random, parse_probability}
use evilresp.Transport.Config.{
  Chunks, max_boundaries, offset, chunk_offsets, Key, truncate, extra, chunks, probability, fault,
  at_point, duration, key_of, index_of, parse_cut, parse_chunks, parse_extra, split_commas,
  option_pairs, TransportConfig, default_transport, set_option, set_options, compatible,
  apply_pairs, is_off_word, updated, Ascending, AreBoundaries, IsBounded, IsValid,
}
use evilresp.Transport.Fault.{FaultConfig, decimal, lasting, set_action, set_point, set_duration}

-- The offsets in the order of the text, none of them beyond the 64th.
chunk_offsets-Ascending :
    (parts : List Bytes) (taken last : ℕ) {ends : List ℕ}
    → taken ≤ max_boundaries
    → chunk_offsets taken last parts ≡ some ends
    → Ascending last ends × (taken + length ends ≤ max_boundaries)
unfolding chunk_offsets
chunk_offsets-Ascending [] taken last h e =
    of_some (λ ns. Ascending last ns × (taken + length ns ≤ max_boundaries)) e (tt, omega arith)
chunk_offsets-Ascending (part ∷ parts) taken last h e =
    let (next, read, rest) = bind-eq-some (offset part) _ e in
    let (test, more) =
      if_none-eq-some (taken == max_boundaries || next == 0 || leb next last) _ rest in
    let (later, read', same) = bind-eq-some (chunk_offsets (suc taken) next parts) _ more in
    let room : suc taken ≤ max_boundaries = ground arith in
    let (up, few) = chunk_offsets-Ascending parts (suc taken) next room read' in
    let above : last < next = ground arith in
    let both : Ascending last (next ∷ later) × (taken + length (next ∷ later) ≤ max_boundaries) =
      ((above, up), omega (arith, few)) in
    of_some (λ ns. Ascending last ns × (taken + length ns ≤ max_boundaries)) same both

parse_chunks-AreBoundaries :
    (value : Bytes) {c : Chunks} → parse_chunks value ≡ some c → AreBoundaries c
unfolding parse_chunks
parse_chunks-AreBoundaries value e =
    elim (Bool-cases (equal (to_ascii_uppercase value) (codes "OFF"))) [
      | inl first ↦ of_some AreBoundaries (rw first at e) (tt, tt)
      | inr not_off ↦ elim (Bool-cases (equal (to_ascii_uppercase value) (codes "RANDOM"))) [
        | inl second ↦ of_some AreBoundaries (rw (not_off, second) at e) (tt, tt)
        | inr not_random ↦
            let (ends, read, same) =
              bind-eq-some (chunk_offsets 0 0 (split_commas [] value)) _
                (rw (not_off, not_random) at e) in
            let (up, few) =
              chunk_offsets-Ascending (split_commas [] value) 0 0 (omega arith) read in
            of_some AreBoundaries same (up, omega (arith, few))
      ]
    ]

lasting_range :
    (c : FaultConfig) (o : Option ℕ) {d : FaultConfig}
    → lasting c o ≡ some d
    → (1 ≤ d.duration_ms) × (d.duration_ms ≤ 3_600_000)
unfolding lasting
lasting_range c none e = cc
lasting_range c (some ms) e = ground arith

set_duration_range :
    (c : FaultConfig) (value : Bytes) {d : FaultConfig}
    → set_duration c value ≡ some d
    → (1 ≤ d.duration_ms) × (d.duration_ms ≤ 3_600_000)
unfolding set_duration
set_duration_range c value e = lasting_range c (decimal value) e

set_action_keeps :
    (c : FaultConfig) (value : Bytes) {d : FaultConfig}
    → set_action c value ≡ some d
    → d.duration_ms ≡ c.duration_ms
unfolding set_action
set_action_keeps c value e = ground arith

set_point_keeps :
    (c : FaultConfig) (value : Bytes) {d : FaultConfig}
    → set_point c value ≡ some d
    → d.duration_ms ≡ c.duration_ms
unfolding set_point
set_point_keeps c value e = ground arith

parse_extra-le : (value : Bytes) {n : ℕ} → parse_extra value ≡ some n → n ≤ 16
unfolding parse_extra
parse_extra-le value e = let (n, read, fits) = bind-eq-some (offset value) _ e in ground arith

module _ (r : Random) where
  set_option-IsBounded :
      (c : TransportConfig r) (k : Key) (value : Bytes) {d : TransportConfig r}
      → IsBounded r c
      → set_option r c k value ≡ some d
      → IsBounded r d
  unfolding set_option
  set_option-IsBounded c truncate value b e =
      let (x, read, same) = bind-eq-some (parse_cut value) _ e in
      of_some (IsBounded r) same
        (record { boundaries = b.boundaries; few_extra = b.few_extra; stalls = b.stalls })
  set_option-IsBounded c extra value b e =
      let (x, read, same) = bind-eq-some (parse_extra value) _ e in
      of_some (IsBounded r) same (record {
        boundaries = b.boundaries;
        few_extra = parse_extra-le value read;
        stalls = b.stalls;
      })
  set_option-IsBounded c chunks value b e =
      let (x, read, same) = bind-eq-some (parse_chunks value) _ e in
      of_some (IsBounded r) same (record {
        boundaries = parse_chunks-AreBoundaries value read;
        few_extra = b.few_extra;
        stalls = b.stalls;
      })
  set_option-IsBounded c probability value b e =
      let (x, read, same) = bind-eq-some (parse_probability r value) _ e in
      of_some (IsBounded r) same
        (record { boundaries = b.boundaries; few_extra = b.few_extra; stalls = b.stalls })
  set_option-IsBounded c fault value b e =
      let (x, read, same) = bind-eq-some (set_action c.fault value) _ e in
      of_some (IsBounded r) same (record {
        boundaries = b.boundaries;
        few_extra = b.few_extra;
        stalls = rw (set_action_keeps c.fault value read) b.stalls;
      })
  set_option-IsBounded c at_point value b e =
      let (x, read, same) = bind-eq-some (set_point c.fault value) _ e in
      of_some (IsBounded r) same (record {
        boundaries = b.boundaries;
        few_extra = b.few_extra;
        stalls = rw (set_point_keeps c.fault value read) b.stalls;
      })
  set_option-IsBounded c duration value b e =
      let (x, read, same) = bind-eq-some (set_duration c.fault value) _ e in
      of_some (IsBounded r) same (record {
        boundaries = b.boundaries;
        few_extra = b.few_extra;
        stalls = set_duration_range c.fault value read;
      })

  set_options-IsBounded :
      (pairs : List (Bytes × Bytes)) (c : TransportConfig r) (seen : List ℕ) {d : TransportConfig r}
      → IsBounded r c
      → set_options r c seen pairs ≡ some d
      → IsBounded r d
  unfolding set_options
  set_options-IsBounded [] c seen b e = of_some (IsBounded r) e b
  set_options-IsBounded ((key, value) ∷ pairs) c seen b e =
      let (k, known, rest) = bind-eq-some (key_of (to_ascii_uppercase key)) _ e in
      let (c', set, rest') = bind-eq-some (set_option r c k value) _ rest in
      let (fresh, more) = if_none-eq-some _ _ rest' in
      set_options-IsBounded pairs c' (index_of k ∷ seen) (set_option-IsBounded c k value b set) more

  compatible-IsValid :
      (c : TransportConfig r) {d : TransportConfig r}
      → IsBounded r c
      → compatible r c ≡ some d
      → IsValid r d
  unfolding compatible
  compatible-IsValid c b e =
      let (test, same) = if_none-eq-some _ _ e in
      of_some (IsValid r) same (record { bounded = b; exclusive = test })

  apply_pairs-IsValid :
      (c : TransportConfig r) (pairs : List (Bytes × Bytes)) {d : TransportConfig r}
      → IsBounded r c
      → apply_pairs r c pairs ≡ some d
      → IsValid r d
  unfolding apply_pairs
  apply_pairs-IsValid c [] b e = cc
  apply_pairs-IsValid c (p ∷ pairs) b e =
      let (c', set, fits) = bind-eq-some (set_options r c [] (p ∷ pairs)) _ e in
      compatible-IsValid c' (set_options-IsBounded (p ∷ pairs) c [] b set) fits

  pub default_transport-IsValid : IsValid r (default_transport r)
  default_transport-IsValid = record {
    bounded = record {
      boundaries = (tt, tt);
      few_extra = omega arith;
      stalls = (omega arith, omega arith);
    };
    exclusive = refl;
  }

  -- From a valid configuration, whatever `TRANSPORT` accepts is a valid configuration: at most 64
  -- positive increasing boundaries, at most 16 extra replies, a stall of 1 to 3600000 ms, and no
  -- fault beside a truncation.
  pub updated-IsValid :
      (c : TransportConfig r) (argv : List Bytes) {d : TransportConfig r}
      → IsValid r c
      → updated r c argv ≡ some d
      → IsValid r d
  unfolding updated
  updated-IsValid c argv v e = elim (Bool-cases (is_off_word r argv)) [
    | inl off_word ↦ of_some (IsValid r) (rw off_word at e) default_transport-IsValid
    | inr options ↦
        let (pairs, split, set) = bind-eq-some (option_pairs argv) _ (rw options at e) in
        apply_pairs-IsValid c pairs v.bounded set
  ]
