-- ===== src/Random.antt =====
-- What the proxy takes from crates that it does not contain: the hash and the random generator
-- behind `rng_for` of src/evil.rs (sha2, rand, rand_chacha), and the 64-bit floats of its
-- probabilities. Only the documented ranges of the draws are assumed.
use evilresp.Base.Bytes.{Bytes}
use evilresp.Base.{
  ℕ, zero, suc, ◌/◌, ◌%◌, ◌≤◌, ◌<◌, Bool, false, [], ◌∷◌, ◌++◌, Option, none, some, if◌then◌else◌,
}
use evilresp.Base.Int.{ℤ, IsI64}
use evilresp.Base.Options.{bind}

pub record Random : Type 1 where
  pub F64 : Type 0
  pub parse_f64 : Bytes → Option F64
  -- `(0.0..=100.0).contains`, `== 0.0`, `> 0.0`, `<` and `p / 2_f64.powi(n)`.
  pub in_percent : F64 → Bool
  pub hundred : F64
  pub is_zero : F64 → Bool
  pub is_positive : F64 → Bool
  pub less : F64 → F64 → Bool
  pub halved : F64 → ℕ → F64
  pub sha256 : Bytes → Bytes
  pub Gen : Type 0
  pub from_seed : Bytes → Gen
  -- `gen_range(lo..hi)`, `gen_range(lo..=hi)`, `gen_range(0.0..100.0)` and `gen_bool(p / 100.0)`.
  pub gen_range : ℕ → ℕ → Gen → ℕ × Gen
  pub gen_range_inclusive : ℕ → ℕ → Gen → ℕ × Gen
  pub gen_percent : Gen → F64 × Gen
  pub gen_bool_percent : F64 → Gen → Bool × Gen
  -- `gen_ratio(n, d)`, `gen::<bool>()`, `gen::<i64>()` and `gen` of unsigned types below a bound.
  pub gen_ratio : ℕ → ℕ → Gen → Bool × Gen
  pub gen_flag : Gen → Bool × Gen
  pub gen_i64 : Gen → ℤ × Gen
  pub gen_below : ℕ → Gen → ℕ × Gen
  -- The text of a finite float with these bits.
  pub finite_text : ℕ → Option Bytes
  pub gen_i64-IsI64 : (g : Gen) → IsI64 (gen_i64 g).0
  pub gen_range_bounds :
      (lo hi : ℕ) (g : Gen) → lo < hi → (lo ≤ (gen_range lo hi g).0) × ((gen_range lo hi g).0 < hi)
  pub gen_range_inclusive_bounds :
      (lo hi : ℕ) (g : Gen)
      → lo ≤ hi
      → (lo ≤ (gen_range_inclusive lo hi g).0) × ((gen_range_inclusive lo hi g).0 ≤ hi)

-- `u64::to_le_bytes` at eight bytes.
unfoldable pub le_bytes : ℕ → ℕ → Bytes
le_bytes zero n = []
le_bytes (suc k) n = (n % 256) ∷ le_bytes k (n / 256)

module _ (r : Random) where
  open r use {F64, parse_f64, in_percent, Gen, sha256, from_seed, is_positive, less, gen_percent}

  unfoldable pub rng_for : ℕ → ℕ → Bytes → Bytes → Gen
  unfolding le_bytes
  rng_for seed command_index command_hash upstream_hash =
      from_seed
        (sha256 (le_bytes 8 seed ++ (le_bytes 8 command_index ++ (command_hash ++ upstream_hash))))

  -- `none` for text that is no float, and for one outside 0..100.
  unfoldable pub parse_probability : Bytes → Option F64
  parse_probability value = bind (parse_f64 value) λ p. if in_percent p then some p else none

  -- No draw is made where the probability is not positive.
  unfoldable pub should_apply : F64 → Gen → Bool × Gen
  should_apply probability g =
      let (x, g') = gen_percent g in
      if is_positive probability then (less x probability, g') else (false, g)
