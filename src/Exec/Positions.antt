-- ===== src/Exec/Positions.antt =====
-- Where the items stand behind `Vec::remove`, `Vec::insert` and an assignment.
use evilresp.Base.Options.{of_some}
use evilresp.Base.{
  ℕ, zero, suc, ◌+◌, ◌-◌, ◌≤◌, ◌<◌, ◌≡◌, ◌≢◌, refl, ap, arith, List, [], ◌∷◌, ◌++◌, some, length,
  get_elem?, take, drop, length-append, length-take, length-drop,
}
use evilresp.Exec.{remove_at, insert_at, set_at}
use evilresp.Resp.Frame.{Frame}

pub get_elem?-lt :
    (items : List Frame) (i : ℕ) {a : Frame} → get_elem? items i ≡ some a → i < length items
get_elem?-lt [] i h = cc
get_elem?-lt (x ∷ items) zero h = omega arith
get_elem?-lt (x ∷ items) (suc i) h = omega (arith, get_elem?-lt items i h)

pub length-remove_at :
    (i : ℕ) (items : List Frame) → i < length items → length (remove_at i items) ≡ length items - 1
unfolding remove_at
length-remove_at i items h = omega (
  arith,
  length-append (take i items) (drop (suc i) items),
  length-take i items,
  length-drop (suc i) items,
)

pub length-insert_at :
    (i : ℕ) (a : Frame) (items : List Frame)
    → i ≤ length items
    → length (insert_at i a items) ≡ length items + 1
unfolding insert_at
length-insert_at i a items h = omega (
  arith,
  length-append (take i items) (a ∷ drop i items),
  length-take i items,
  length-drop i items,
)

pub length-set_at :
    (i : ℕ) (a : Frame) (items : List Frame) → length (set_at i a items) ≡ length items
unfolding set_at
length-set_at i a [] = refl
length-set_at zero a (x ∷ items) = refl
length-set_at (suc i) a (x ∷ items) = omega (arith, length-set_at i a items)

pub split_at :
    (items : List Frame) (i : ℕ) {a : Frame}
    → get_elem? items i ≡ some a
    → items ≡ take i items ++ a ∷ drop (suc i) items
split_at [] i h = cc
split_at (x ∷ items) zero h = of_some (λ b. x ∷ items ≡ b ∷ items) h refl
split_at (x ∷ items) (suc i) h = ap (λ r. x ∷ r) (split_at items i h)

pub take-suc :
    (items : List Frame) (i : ℕ) (rest : List Frame) {a : Frame}
    → get_elem? items i ≡ some a
    → take (suc i) items ++ rest ≡ take i items ++ a ∷ rest
take-suc [] i rest h = cc
take-suc (x ∷ items) zero rest h = of_some (λ b. x ∷ rest ≡ b ∷ rest) h refl
take-suc (x ∷ items) (suc i) rest h = ap (λ r. x ∷ r) (take-suc items i rest h)

pub length-before : (items : List Frame) (i : ℕ) → i < length items → length (take i items) ≡ i
length-before items i h = omega (arith, h, length-take i items)

pub get_elem?-set_at :
    (items : List Frame) (i : ℕ) (a : Frame) {b : Frame}
    → get_elem? items i ≡ some b
    → get_elem? (set_at i a items) i ≡ some a
unfolding set_at
get_elem?-set_at [] i a h = cc
get_elem?-set_at (x ∷ items) zero a h = refl
get_elem?-set_at (x ∷ items) (suc i) a h = get_elem?-set_at items i a h

pub get_elem?-set_at_other :
    (items : List Frame) (i k : ℕ) (a : Frame)
    → k ≢ i
    → get_elem? (set_at i a items) k ≡ get_elem? items k
unfolding set_at
get_elem?-set_at_other [] i k a h = refl
get_elem?-set_at_other (x ∷ items) zero zero a h = absurd (h refl)
get_elem?-set_at_other (x ∷ items) zero (suc k) a h = refl
get_elem?-set_at_other (x ∷ items) (suc i) zero a h = refl
get_elem?-set_at_other (x ∷ items) (suc i) (suc k) a h =
    get_elem?-set_at_other items i k a (λ e. h (ap suc e))
