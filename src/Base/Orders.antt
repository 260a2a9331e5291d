-- ===== src/Base/Orders.antt =====
-- The orders of byte strings and of pairs of them.
use evilresp.Base.Bytes.{Bytes, equal, equal_sound, equal_refl}
use evilresp.Base.Sort.{Order}
use evilresp.Base.{
  ◌≡◌, refl, sym, ◌∙◌, ap, arith, inl, inr, Bool, true, false, [], ◌∷◌, ltb, ◌==◌, if◌then◌else◌,
  Bool-cases,
}

unfoldable pub at_most : Bytes → Bytes → Bool
at_most [] ys = true
at_most (x ∷ xs) [] = false
at_most (x ∷ xs) (y ∷ ys) =
    let rest = at_most xs ys in if ltb x y then true else if x == y then rest else false

pub at_most_total : (a b : Bytes) → at_most a b ≡ false → at_most b a ≡ true
unfolding at_most
at_most_total [] b h = cc
at_most_total (x ∷ xs) [] h = refl
at_most_total (x ∷ xs) (y ∷ ys) h = ground (arith, at_most_total xs ys)

pub at_most_trans : (a b c : Bytes) → at_most a b ≡ true → at_most b c ≡ true → at_most a c ≡ true
unfolding at_most
at_most_trans [] b c h k = refl
at_most_trans (x ∷ xs) [] c h k = cc
at_most_trans (x ∷ xs) (y ∷ ys) [] h k = cc
at_most_trans (x ∷ xs) (y ∷ ys) (z ∷ zs) h k = ground (arith, at_most_trans xs ys zs)

pub at_most_antisym : (a b : Bytes) → at_most a b ≡ true → at_most b a ≡ true → a ≡ b
unfolding at_most
at_most_antisym [] [] h k = refl
at_most_antisym [] (y ∷ ys) h k = cc
at_most_antisym (x ∷ xs) [] h k = cc
at_most_antisym (x ∷ xs) (y ∷ ys) h k = ground (arith, at_most_antisym xs ys)

abbrev pub bytes_order : Order Bytes
bytes_order = record {
  le = at_most;
  total = at_most_total;
  trans = at_most_trans;
  antisym = at_most_antisym;
}

-- `cmp` of the first components, `then_with` that of the second ones.
unfoldable pub at_most_pair : Bytes × Bytes → Bytes × Bytes → Bool
at_most_pair p q = if equal p.0 q.0 then at_most p.1 q.1 else at_most p.0 q.0

equal_comm : (a b : Bytes) → equal a b ≡ equal b a
equal_comm a b = elim (Bool-cases (equal a b)) [
  | inl same ↦ cc (equal_sound a b same)
  | inr other ↦ elim (Bool-cases (equal b a)) [
    | inl same ↦ cc (equal_sound b a same)
    | inr other' ↦ other ∙ sym other'
  ]
]

pub at_most_pair_total : (p q : Bytes × Bytes) → at_most_pair p q ≡ false → at_most_pair q p ≡ true
unfolding at_most_pair
at_most_pair_total p q h = elim (Bool-cases (equal p.0 q.0)) [
  | inl same ↦ rw (sym (equal_comm p.0 q.0) ∙ same) (at_most_total p.1 q.1 (rw same at h))
  | inr other ↦ rw (sym (equal_comm p.0 q.0) ∙ other) (at_most_total p.0 q.0 (rw other at h))
]

pub at_most_pair_antisym :
    (p q : Bytes × Bytes) → at_most_pair p q ≡ true → at_most_pair q p ≡ true → p ≡ q
unfolding at_most_pair
at_most_pair_antisym p q h k = elim (Bool-cases (equal p.0 q.0)) [
  | inl same ↦
      let first = equal_sound p.0 q.0 same in
      let second =
        at_most_antisym p.1 q.1 (rw same at h) (rw (sym (equal_comm p.0 q.0) ∙ same) at k) in
      λ i. (first i, second i)
  | inr other ↦
      let first =
        at_most_antisym p.0 q.0 (rw other at h) (rw (sym (equal_comm p.0 q.0) ∙ other) at k) in
      cc (equal_refl q.0, ap (λ a. equal a q.0) first, other)
]

pub at_most_pair_trans :
    (p q s : Bytes × Bytes)
    → at_most_pair p q ≡ true
    → at_most_pair q s ≡ true
    → at_most_pair p s ≡ true
unfolding at_most_pair
at_most_pair_trans p q s h k = elim (Bool-cases (equal p.0 q.0)) [
  | inl pq ↦
      let same = equal_sound p.0 q.0 pq in
      elim (Bool-cases (equal q.0 s.0)) [
        | inl qs ↦
            rw (ap (λ a. equal a s.0) same ∙ qs)
              (at_most_trans p.1 q.1 s.1 (rw pq at h) (rw qs at k))
        | inr not_qs ↦
            rw (ap (λ a. equal a s.0) same ∙ not_qs)
              (ap (λ a. at_most a s.0) same ∙ (rw not_qs at k))
      ]
  | inr not_pq ↦ elim (Bool-cases (equal q.0 s.0)) [
    | inl qs ↦
        let same = equal_sound q.0 s.0 qs in
        rw (ap (equal p.0) (sym same) ∙ not_pq) (ap (at_most p.0) (sym same) ∙ (rw not_pq at h))
    | inr not_qs ↦ elim (Bool-cases (equal p.0 s.0)) [
      | inl ps ↦
          let same = equal_sound p.0 s.0 ps in
          let first =
            at_most_antisym p.0 q.0 (rw not_pq at h) (ap (at_most q.0) same ∙ (rw not_qs at k)) in
          cc (equal_refl q.0, ap (λ a. equal a q.0) first, not_pq)
      | inr not_ps ↦ rw not_ps (at_most_trans p.0 q.0 s.0 (rw not_pq at h) (rw not_qs at k))
    ]
  ]
]

abbrev pub pair_order : Order (Bytes × Bytes)
pair_order = record {
  le = at_most_pair;
  total = at_most_pair_total;
  trans = at_most_pair_trans;
  antisym = at_most_pair_antisym;
}
