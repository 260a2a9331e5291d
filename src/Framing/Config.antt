-- ===== src/Framing/Config.antt =====
-- src/framing.rs: `FramingConfig`, `Target`, and the options of `DEBUG EVIL FRAMING`.
use evilresp.Base.Bytes.{
  Bytes, codes, equal, to_ascii_uppercase, to_ascii_lowercase, eq_ignore_ascii_case, is_ascii_digit,
  split_on,
}
use evilresp.Base.Decimal.{decimal, parse_unsigned}
use evilresp.Base.Options.{bind}
use evilresp.Base.{
  ℕ, ◌^◌, Bool, true, false, ◌&&◌, ◌||◌, List, [], ◌∷◌, ◌++◌, Option, none, some, all,
  if◌then◌else◌,
}
use evilresp.Evil.{LengthCorruption, shorter, longer, negative, boundary, overflow}
use evilresp.Random.{Random, parse_probability}
use evilresp.Transport.Config.{option_pairs, contains}

pub data Target : Type 0 where
  any : Target
  path : Bytes → Target

abbrev pub is_index : Bytes → Bool
is_index [] = false
is_index (c ∷ cs) = all is_ascii_digit (c ∷ cs)

-- A part of a path: its text in the canonical path, and whether it is an index.
unfoldable pub path_part : Bool → Bytes → Option (Bytes × Bool)
path_part after_index part =
    if after_index && (equal part (codes "key") || equal part (codes "value"))
    then some (part, false)
    else if is_index part
    then (bind (parse_unsigned (2 ^ 64) part) λ n. some (decimal n, true))
    else none

-- The loop over the parts; the canonical path so far is `done`.
unfoldable pub path_parts : Bytes → Bool → List Bytes → Option Bytes
path_parts done after_index [] = some done
path_parts done after_index (part ∷ parts) =
    bind (path_part after_index (to_ascii_lowercase part))
      λ (text, index). path_parts (done ++ (codes "." ++ text)) index parts

unfoldable pub root_path : List Bytes → Option Target
unfolding path_parts
root_path [] = none
root_path (part ∷ parts) =
    if eq_ignore_ascii_case part (codes "root")
    then (bind (path_parts (codes "root") false parts) λ p. some (path p))
    else none

-- `Target::parse`.
unfoldable pub parse_target : Bytes → Option Target
unfolding root_path
parse_target value =
    if eq_ignore_ascii_case value (codes "ANY")
    then some any
    else root_path (split_on b'.' [] value)

-- `Target::matches`.
abbrev pub matches : Target → Bytes → Bool
matches any at = true
matches (path target) at = equal target at

unfoldable pub parse_kind : Bytes → Option (Option LengthCorruption)
parse_kind word =
    if equal word (codes "RANDOM")
    then some none
    else if equal word (codes "SHORTER")
    then some (some shorter)
    else if equal word (codes "LONGER")
    then some (some longer)
    else if equal word (codes "NEGATIVE")
    then some (some negative)
    else if equal word (codes "BOUNDARY")
    then some (some boundary)
    else if equal word (codes "OVERFLOW")
    then some (some overflow)
    else none

pub data LengthKey : Type 0 where
  probability target kind : LengthKey

abbrev pub index_of : LengthKey → ℕ
index_of probability = 0
index_of target = 1
index_of kind = 2

unfoldable pub length_key_of : Bytes → Option LengthKey
length_key_of word =
    if equal word (codes "PROBABILITY")
    then some probability
    else if equal word (codes "TARGET")
    then some target
    else if equal word (codes "KIND")
    then some kind
    else none

module _ (r : Random) where
  open r use {F64, hundred}

  pub record LengthConfig : Type 0 where
    pub probability : F64
    pub target : Target
    pub kind : Option LengthCorruption

  pub data FramingConfig : Type 0 where
    auto off : FramingConfig
    length : LengthConfig → FramingConfig

  abbrev pub default_length : LengthConfig
  default_length = record { probability = hundred; target = any; kind = none }

  unfoldable pub set_length : LengthConfig → LengthKey → Bytes → Option LengthConfig
  unfolding parse_target parse_kind
  set_length c probability value =
      bind (parse_probability r value) λ x. some (record c { probability = x })
  set_length c target value = bind (parse_target value) λ x. some (record c { target = x })
  set_length c kind value =
      bind (parse_kind (to_ascii_uppercase value)) λ x. some (record c { kind = x })

  -- The loop over the options, with those that were seen.
  unfoldable pub set_lengths : LengthConfig → List ℕ → List (Bytes × Bytes) → Option LengthConfig
  unfolding set_length length_key_of
  set_lengths c seen [] = some c
  set_lengths c seen ((option, value) ∷ options) =
      bind (length_key_of (to_ascii_uppercase option)) λ k. bind (set_length c k value) λ c'.
        let more = set_lengths c' (index_of k ∷ seen) options in
        if contains (index_of k) seen then none else more

  abbrev pub alone : List Bytes → FramingConfig → Option FramingConfig
  alone [] c = some c
  alone (a ∷ options) c = none

  -- `FramingConfig::parse`.
  unfoldable pub parse_framing : List Bytes → Option FramingConfig
  unfolding set_lengths
  parse_framing [] = none
  parse_framing (mode ∷ options) =
      let word = to_ascii_uppercase mode in
      if equal word (codes "AUTO")
      then alone options auto
      else if equal word (codes "OFF")
      then alone options off
      else if equal word (codes "LENGTH")
      then (bind (option_pairs options)
          λ pairs. bind (set_lengths default_length [] pairs) λ c. some (length c))
      else none
