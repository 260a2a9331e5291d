-- ===== src/Generator/Kinds.antt =====
-- src/generator.rs: the kinds of frames that a protocol generates.
use evilresp.Base.{ℕ, Bool, true, false, List, [], ◌∷◌}
use evilresp.Generator.Config.{Protocol, resp2, resp3}

pub data Kind : Type 0 where
  string error integer blob null_blob null_array array null boolean double big_number : Kind
  bulk_error verbatim map set : Kind

abbrev pub kinds_of : Protocol → List Kind
kinds_of resp2 = string ∷ error ∷ integer ∷ blob ∷ null_blob ∷ null_array ∷ array ∷ []
kinds_of resp3 =
    string ∷ error ∷ integer ∷ blob ∷ null ∷ boolean ∷ double ∷ big_number ∷ bulk_error ∷ verbatim
    ∷ array ∷ map ∷ set ∷ []

-- The aggregate kinds stand last.
abbrev pub aggregates : Protocol → ℕ
aggregates resp2 = 1
aggregates resp3 = 3

abbrev pub is_resp2 : Protocol → ℕ
is_resp2 resp2 = 1
is_resp2 resp3 = 0

-- A kind of frame that holds no other frames.
abbrev pub is_leaf : Kind → Bool
is_leaf array = false
is_leaf map = false
is_leaf set = false
is_leaf _ = true
