-- ===== src/Transport/Config.antt =====
-- src/transport.rs: `TransportConfig`, and the options of `DEBUG EVIL TRANSPORT`.
use evilresp.Base.Bytes.{
  Bytes, codes, equal, to_ascii_uppercase, eq_ignore_ascii_case, is_ascii_digit,
}
use evilresp.Base.Decimal.{parse_unsigned}
use evilresp.Base.Options.{bind}
use evilresp.Base.{
  ℕ, suc, ◌^◌, ◌≤◌, ◌<◌, ◌≡◌, Bool, true, false, ◌&&◌, ◌||◌, not, List, [], ◌∷◌, ◌++◌, Option, none,
  some, length, all, ltb, leb, ◌==◌, if◌then◌else◌,
}
use evilresp.Random.{Random, parse_probability}
use evilresp.Transport.Fault.{
  FaultConfig, default_fault, set_action, set_point, set_duration, is_off,
}

pub data Cut : Type 0 where
  off random : Cut
  at : ℕ → Cut

pub data Chunks : Type 0 where
  off random : Chunks
  at : List ℕ → Chunks

abbrev pub max_boundaries : ℕ
max_boundaries = 64

abbrev pub is_cut_off : Cut → Bool
is_cut_off off = true
is_cut_off _ = false

abbrev pub is_chunks_off : Chunks → Bool
is_chunks_off off = true
is_chunks_off _ = false

-- `offset`: an unsigned decimal number of 64 bits. A refusal is `none`, here and below.
unfoldable pub offset : Bytes → Option ℕ
offset [] = none
offset (c ∷ cs) = if all is_ascii_digit (c ∷ cs) then parse_unsigned (2 ^ 64) (c ∷ cs) else none

-- `value.split(',')`: there is always a part, and `part` is the one being read.
unfoldable pub split_commas : Bytes → Bytes → List Bytes
split_commas part [] = part ∷ []
split_commas part (c ∷ cs) =
    let next = part ∷ split_commas [] cs in
    let more = split_commas (part ++ c ∷ []) cs in if c == b',' then next else more

-- The loop over the parts, with the number of offsets taken and the last of them.
unfoldable pub chunk_offsets : ℕ → ℕ → List Bytes → Option (List ℕ)
chunk_offsets taken last [] = some []
chunk_offsets taken last (part ∷ parts) = bind (offset part) λ next.
    let more = bind (chunk_offsets (suc taken) next parts) λ ends. some (next ∷ ends) in
    if taken == max_boundaries || next == 0 || leb next last then none else more

-- The options, in the order of the flags `seen`.
pub data Key : Type 0 where
  truncate extra chunks probability fault at_point duration : Key

unfoldable pub key_of : Bytes → Option Key
key_of word =
    if equal word (codes "TRUNCATE")
    then some truncate
    else if equal word (codes "EXTRA")
    then some extra
    else if equal word (codes "CHUNKS")
    then some chunks
    else if equal word (codes "PROBABILITY")
    then some probability
    else if equal word (codes "FAULT")
    then some fault
    else if equal word (codes "AT")
    then some at_point
    else if equal word (codes "DURATION")
    then some duration
    else none

abbrev pub index_of : Key → ℕ
index_of truncate = 0
index_of extra = 1
index_of chunks = 2
index_of probability = 3
index_of fault = 4
index_of at_point = 5
index_of duration = 6

unfoldable pub parse_cut : Bytes → Option Cut
parse_cut value =
    let word = to_ascii_uppercase value in
    if equal word (codes "OFF")
    then some off
    else if equal word (codes "RANDOM")
    then some random
    else bind (offset value) λ n. some (at n)

unfoldable pub parse_chunks : Bytes → Option Chunks
parse_chunks value =
    let word = to_ascii_uppercase value in
    if equal word (codes "OFF")
    then some off
    else if equal word (codes "RANDOM")
    then some random
    else bind (chunk_offsets 0 0 (split_commas [] value)) λ ends. some (at ends)

unfoldable pub parse_extra : Bytes → Option ℕ
parse_extra value = bind (offset value) λ n. if ltb 16 n then none else some n

-- `argv.as_chunks::<2>()`; a word left over is `none`.
unfoldable pub option_pairs : List Bytes → Option (List (Bytes × Bytes))
option_pairs [] = some []
option_pairs (k ∷ []) = none
option_pairs (k ∷ v ∷ rest) = bind (option_pairs rest) λ pairs. some ((k, v) ∷ pairs)

-- A set of option indices that have been seen.
abbrev pub contains : ℕ → List ℕ → Bool
contains i [] = false
contains i (j ∷ js) = i == j || contains i js

module _ (r : Random) where
  open r use {F64, hundred}

  pub record TransportConfig : Type 0 where
    pub truncate : Cut
    pub extra : ℕ
    pub chunks : Chunks
    pub probability : F64
    pub fault : FaultConfig

  abbrev pub default_transport : TransportConfig
  default_transport = record {
    truncate = off;
    extra = 0;
    chunks = off;
    probability = hundred;
    fault = default_fault;
  }

  unfoldable pub enabled : TransportConfig → Bool
  enabled c =
      not (is_off c.fault.action)
      || not (is_cut_off c.truncate)
      || not (c.extra == 0)
      || not (is_chunks_off c.chunks)

  -- One option with its value.
  unfoldable pub set_option : TransportConfig → Key → Bytes → Option TransportConfig
  set_option c truncate value = bind (parse_cut value) λ x. some (record c { truncate = x })
  set_option c extra value = bind (parse_extra value) λ x. some (record c { extra = x })
  set_option c chunks value = bind (parse_chunks value) λ x. some (record c { chunks = x })
  set_option c probability value =
      bind (parse_probability r value) λ x. some (record c { probability = x })
  set_option c fault value = bind (set_action c.fault value) λ x. some (record c { fault = x })
  set_option c at_point value = bind (set_point c.fault value) λ x. some (record c { fault = x })
  set_option c duration value = bind (set_duration c.fault value) λ x. some (record c { fault = x })

  -- The loop over the pairs, with the options that were seen.
  unfoldable pub set_options :
      TransportConfig → List ℕ → List (Bytes × Bytes) → Option TransportConfig
  set_options c seen [] = some c
  set_options c seen ((key, value) ∷ pairs) = bind (key_of (to_ascii_uppercase key)) λ k.
      bind (set_option c k value) λ c'.
        let more = set_options c' (index_of k ∷ seen) pairs in
        if contains (index_of k) seen then none else more

  -- `FAULT` and `TRUNCATE` exclude one another.
  unfoldable pub compatible : TransportConfig → Option TransportConfig
  compatible c = if not (is_off c.fault.action) && not (is_cut_off c.truncate) then none else some c

  unfoldable pub apply_pairs : TransportConfig → List (Bytes × Bytes) → Option TransportConfig
  unfolding set_options compatible
  apply_pairs c [] = none
  apply_pairs c (p ∷ pairs) = bind (set_options c [] (p ∷ pairs)) compatible

  unfoldable pub is_off_word : List Bytes → Bool
  is_off_word (word ∷ []) = eq_ignore_ascii_case word (codes "OFF")
  is_off_word _ = false

  -- `TransportConfig::updated`.
  unfoldable pub updated : TransportConfig → List Bytes → Option TransportConfig
  unfolding apply_pairs is_off_word
  updated c argv =
      if is_off_word argv then some default_transport else bind (option_pairs argv) (apply_pairs c)

-- What every accepted configuration satisfies: the boundaries are at most 64, positive and
-- strictly increasing, there are at most 16 extra replies, and no fault goes with a truncation.
abbrev pub Ascending : ℕ → List ℕ → Type 0
Ascending last [] = Unit
Ascending last (n ∷ ns) = (last < n) × Ascending n ns

abbrev pub AreBoundaries : Chunks → Type 0
AreBoundaries (at ends) = Ascending 0 ends × (length ends ≤ max_boundaries)
AreBoundaries _ = Unit × Unit

module _ (r : Random) where
  pub record IsBounded (c : TransportConfig r) : Type 0 where
    pub boundaries : AreBoundaries c.chunks
    pub few_extra : c.extra ≤ 16
    pub stalls : (1 ≤ c.fault.duration_ms) × (c.fault.duration_ms ≤ 3_600_000)

  pub record IsValid (c : TransportConfig r) : Type 0 where
    pub bounded : IsBounded c
    pub exclusive : (not (is_off c.fault.action) && not (is_cut_off c.truncate)) ≡ false
