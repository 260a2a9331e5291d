-- ===== src/Generator/Config.antt =====
-- src/generator.rs: `GeneratorConfig` and the options of `DEBUG EVIL GENERATOR`.
use evilresp.Base.Bytes.{Bytes, codes, equal, to_ascii_uppercase}
use evilresp.Base.Options.{bind}
use evilresp.Base.{ℕ, Bool, true, false, List, [], ◌∷◌, Option, none, some, if◌then◌else◌}
use evilresp.Transport.Config.{option_pairs, contains}

pub data Protocol : Type 0 where
  resp2 resp3 : Protocol

pub data Corpus : Type 0 where
  boundary random : Corpus

pub record GeneratorConfig : Type 0 where
  pub protocol : Protocol
  pub corpus : Corpus
  pub violations : Bool

abbrev pub default_generator : GeneratorConfig
default_generator = record { protocol = resp2; corpus = boundary; violations = false }

pub data GeneratorKey : Type 0 where
  protocol corpus violations : GeneratorKey

abbrev pub index_of : GeneratorKey → ℕ
index_of protocol = 0
index_of corpus = 1
index_of violations = 2

unfoldable pub generator_key_of : Bytes → Option GeneratorKey
generator_key_of word =
    if equal word (codes "PROTOCOL")
    then some protocol
    else if equal word (codes "CORPUS")
    then some corpus
    else if equal word (codes "VIOLATIONS")
    then some violations
    else none

-- One option with its value in capitals.
unfoldable pub set_generator : GeneratorConfig → GeneratorKey → Bytes → Option GeneratorConfig
set_generator c protocol word =
    if equal word (codes "RESP2")
    then some (record c { protocol = resp2 })
    else if equal word (codes "RESP3")
    then some (record c { protocol = resp3 })
    else none
set_generator c corpus word =
    if equal word (codes "BOUNDARY")
    then some (record c { corpus = boundary })
    else if equal word (codes "RANDOM")
    then some (record c { corpus = random })
    else none
set_generator c violations word =
    if equal word (codes "ON")
    then some (record c { violations = true })
    else if equal word (codes "OFF")
    then some (record c { violations = false })
    else none

-- The loop over the options, with those that were seen.
unfoldable pub set_generators :
    GeneratorConfig → List ℕ → List (Bytes × Bytes) → Option GeneratorConfig
unfolding set_generator generator_key_of
set_generators c seen [] = some c
set_generators c seen ((option, value) ∷ options) =
    bind (generator_key_of (to_ascii_uppercase option)) λ k.
      bind (set_generator c k (to_ascii_uppercase value)) λ c'.
        let more = set_generators c' (index_of k ∷ seen) options in
        if contains (index_of k) seen then none else more

unfoldable pub apply_generator : GeneratorConfig → List (Bytes × Bytes) → Option GeneratorConfig
unfolding set_generators
apply_generator c [] = none
apply_generator c (p ∷ options) = set_generators c [] (p ∷ options)

-- `GeneratorConfig::updated`.
unfoldable pub updated_generator : GeneratorConfig → List Bytes → Option GeneratorConfig
unfolding apply_generator
updated_generator c argv = bind (option_pairs argv) (apply_generator c)
