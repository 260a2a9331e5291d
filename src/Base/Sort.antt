-- ===== src/Base/Sort.antt =====
-- The stable `sort_by_key` and `sort_by` of the standard library.
use evilresp.Base.{
  ◌≡◌, refl, sym, ◌∙◌, ap, inl, inr, Bool, true, false, List, [], ◌∷◌, All, if◌then◌else◌,
  Bool-cases,
}
use mathlib.Core.List.{Permᴰ}

-- A total order on keys, as a test.
pub record Order (K : Type 0) : Type 0 where
  pub le : K → K → Bool
  pub total : (x y : K) → le x y ≡ false → le y x ≡ true
  pub trans : (x y z : K) → le x y ≡ true → le y z ≡ true → le x z ≡ true
  pub antisym : (x y : K) → le x y ≡ true → le y x ≡ true → x ≡ y

module _ {A K : Type 0} (o : Order K) (key : A → K) where
  -- In front of the first element whose key is not smaller, so that equal elements keep their order.
  unfoldable pub insert : A → List A → List A
  insert x [] = x ∷ []
  insert x (y ∷ ys) = if o.le (key x) (key y) then x ∷ y ∷ ys else y ∷ insert x ys

  unfoldable pub sort : List A → List A
  unfolding insert
  sort [] = []
  sort (x ∷ xs) = insert x (sort xs)

  abbrev pub IsSorted : List A → Type 0
  IsSorted [] = Unit
  IsSorted (x ∷ xs) = All (λ y. o.le (key x) (key y) ≡ true) xs × IsSorted xs

  All-trans :
      (x y : A) (ys : List A)
      → o.le (key x) (key y) ≡ true
      → All (λ z. o.le (key y) (key z) ≡ true) ys
      → All (λ z. o.le (key x) (key z) ≡ true) ys
  All-trans x y [] h a = tt
  All-trans x y (z ∷ zs) h (first, rest) =
      (o.trans (key x) (key y) (key z) h first, All-trans x y zs h rest)

  -- What holds of all elements holds of all sorted ones.
  insert-All {ℓ} : (P : A → Type ℓ) (x : A) (ys : List A) → P x → All P ys → All P (insert x ys)
  unfolding insert
  insert-All P x [] p a = (p, tt)
  insert-All P x (y ∷ ys) p (first, rest) = elim (Bool-cases (o.le (key x) (key y))) [
    | inl before ↦ rw before (p, (first, rest))
    | inr behind ↦ rw behind (first, insert-All P x ys p rest)
  ]

  pub sort-All {ℓ} : (P : A → Type ℓ) (xs : List A) → All P xs → All P (sort xs)
  unfolding sort
  sort-All P [] a = tt
  sort-All P (x ∷ xs) (first, rest) = insert-All P x (sort xs) first (sort-All P xs rest)

  insert-IsSorted : (x : A) (ys : List A) → IsSorted ys → IsSorted (insert x ys)
  unfolding insert
  insert-IsSorted x [] s = (tt, tt)
  insert-IsSorted x (y ∷ ys) (first, s) = elim (Bool-cases (o.le (key x) (key y))) [
    | inl before ↦ rw before ((before, All-trans x y ys before first), (first, s))
    | inr behind ↦ rw behind (
      insert-All (λ z. o.le (key y) (key z) ≡ true) x ys (o.total (key x) (key y) behind) first,
      insert-IsSorted x ys s,
    )
  ]

  pub sort-IsSorted : (xs : List A) → IsSorted (sort xs)
  unfolding sort
  sort-IsSorted [] = tt
  sort-IsSorted (x ∷ xs) = insert-IsSorted x (sort xs) (sort-IsSorted xs)

  insert_least :
      (x : A) (ys : List A) → All (λ y. o.le (key x) (key y) ≡ true) ys → insert x ys ≡ x ∷ ys
  unfolding insert
  insert_least x [] a = refl
  insert_least x (y ∷ ys) (first, rest) = rw first refl

  -- What is sorted stays as it is.
  pub sort_sorted : (xs : List A) → IsSorted xs → sort xs ≡ xs
  unfolding sort
  sort_sorted [] s = refl
  sort_sorted (x ∷ xs) (first, s) = rw (sort_sorted xs s) (insert_least x xs first)

  -- Two elements can be inserted in either order, as far as the keys can tell.
  abbrev pub keys : List A → List K
  keys [] = []
  keys (x ∷ xs) = key x ∷ keys xs

abbrev pub itself : {K : Type 0} → K → K
itself k = k

module _ {K : Type 0} (o : Order K) where
  insert_before :
      (x y : K) (zs : List K) → o.le x y ≡ true → insert o itself x (y ∷ zs) ≡ x ∷ y ∷ zs
  unfolding insert
  insert_before x y zs h = rw h refl

  insert_behind :
      (x y : K) (zs : List K)
      → o.le x y ≡ false
      → insert o itself x (y ∷ zs) ≡ y ∷ insert o itself x zs
  unfolding insert
  insert_behind x y zs h = rw h refl

  -- In front of all that follows, in the order that the keys have.
  insert_front :
      (x y : K) (zs : List K)
      → insert o itself x zs ≡ x ∷ zs
      → insert o itself y zs ≡ y ∷ zs
      → insert o itself x (insert o itself y zs) ≡ insert o itself y (insert o itself x zs)
  insert_front x y zs ex ey = elim (Bool-cases (o.le x y)) [
    | inr not_xy ↦
        cc (ex, ey, insert_behind x y zs not_xy, insert_before y x zs (o.total x y not_xy))
    | inl xy ↦ elim (Bool-cases (o.le y x)) [
      | inl yx ↦ cc (o.antisym x y xy yx)
      | inr not_yx ↦ cc (ex, ey, insert_before x y zs xy, insert_behind y x zs not_yx)
    ]
  ]

  -- `y` stands before `z`, and `x` behind it.
  insert_apart :
      (x y z : K) (zs : List K)
      → o.le y z ≡ true
      → o.le x z ≡ false
      → insert o itself x (insert o itself y (z ∷ zs))
        ≡ insert o itself y (insert o itself x (z ∷ zs))
  insert_apart x y z zs yz not_xz = elim (Bool-cases (o.le x y)) [
    | inl xy ↦ cc (o.trans x y z xy yz, not_xz)
    | inr not_xy ↦ cc (
      insert_before y z zs yz,
      insert_behind x y (z ∷ zs) not_xy,
      insert_behind x z zs not_xz,
      insert_before y z (insert o itself x zs) yz,
    )
  ]

  insert_comm :
      (x y : K) (zs : List K)
      → insert o itself x (insert o itself y zs) ≡ insert o itself y (insert o itself x zs)
  unfolding insert
  insert_comm x y [] = insert_front x y [] refl refl
  insert_comm x y (z ∷ zs) = elim (Bool-cases (o.le y z)) [
    | inl yz ↦ elim (Bool-cases (o.le x z)) [
      | inl xz ↦ insert_front x y (z ∷ zs) (insert_before x z zs xz) (insert_before y z zs yz)
      | inr not_xz ↦ insert_apart x y z zs yz not_xz
    ]
    | inr not_yz ↦ elim (Bool-cases (o.le x z)) [
      | inl xz ↦ sym (insert_apart y x z zs xz not_yz)
      | inr not_xz ↦ cc (
        insert_behind x z zs not_xz,
        insert_behind y z zs not_yz,
        insert_behind x z (insert o itself y zs) not_xz,
        insert_behind y z (insert o itself x zs) not_yz,
        insert_comm x y zs,
      )
    ]
  ]

module _ {A K : Type 0} (o : Order K) (key : A → K) where
  keys-insert :
      (x : A) (ys : List A)
      → keys o key (insert o key x ys) ≡ insert o itself (key x) (keys o key ys)
  unfolding insert
  keys-insert x [] = refl
  keys-insert x (y ∷ ys) = elim (Bool-cases (o.le (key x) (key y))) [
    | inl before ↦ rw before refl
    | inr behind ↦ rw behind (ap (◌∷◌ (key y)) (keys-insert x ys))
  ]

  keys-sort : (xs : List A) → keys o key (sort o key xs) ≡ sort o itself (keys o key xs)
  unfolding sort
  keys-sort [] = refl
  keys-sort (x ∷ xs) = keys-insert x (sort o key xs) ∙ ap (insert o itself (key x)) (keys-sort xs)

  sorted_perm :
      {xs ys : List A} → Permᴰ xs ys → sort o itself (keys o key xs) ≡ sort o itself (keys o key ys)
  unfolding sort
  sorted_perm Permᴰ.nil = refl
  sorted_perm (Permᴰ.cons e p) = cc (e, sorted_perm p)
  sorted_perm (Permᴰ.swap {a} {b} {a'} {b'} {l} e f) =
      rw (e, f) (insert_comm o (key b') (key a') (sort o itself (keys o key l)))
  sorted_perm (Permᴰ.trans p q) = sorted_perm p ∙ sorted_perm q

  -- The keys of a sorted list do not depend on the order of the list.
  pub keys-sort_perm :
      {xs ys : List A} → Permᴰ xs ys → keys o key (sort o key xs) ≡ keys o key (sort o key ys)
  keys-sort_perm {xs} {ys} p = keys-sort xs ∙ sorted_perm p ∙ sym (keys-sort ys)
