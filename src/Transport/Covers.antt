-- ===== src/Transport/Covers.antt =====
-- Chunk ends: the lists that cut a wire message into non-empty pieces, and how they arise.
use evilresp.Base.{
  ℕ, zero, suc, ◌≤◌, ◌<◌, ◌≡◌, refl, arith, inl, inr, true, List, [], ◌∷◌, ◌++◌, All, ltb, leb,
  ◌==◌, Bool-cases,
}
use evilresp.Random.{Random}
use evilresp.Transport.Config.{Ascending}
use evilresp.Transport.Plan.{below, with_end, insert, sort, dedup_from, dedup, draw_offsets}

-- From `lo` on, the ends lead in strictly increasing steps to `hi`.
abbrev pub Covers : ℕ → List ℕ → ℕ → Type 0
Covers lo [] hi = lo ≡ hi
Covers lo (e ∷ es) hi = (lo < e) × Covers e es hi

abbrev pub AllBelow : ℕ → List ℕ → Type 0
AllBelow hi = All (λ n. n < hi)

Ascending-weaken : (lo lo' : ℕ) (ns : List ℕ) → lo ≤ lo' → Ascending lo' ns → Ascending lo ns
Ascending-weaken lo lo' [] h a = tt
Ascending-weaken lo lo' (n ∷ ns) h (up, a) = (omega arith, a)

pub below-Ascending : (lo hi : ℕ) (ns : List ℕ) → Ascending lo ns → Ascending lo (below hi ns)
unfolding below
below-Ascending lo hi [] a = tt
below-Ascending lo hi (n ∷ ns) (up, a) = elim (Bool-cases (ltb n hi)) [
  | inl small ↦ rw small (up, below-Ascending n hi ns a)
  | inr large ↦ rw large (below-Ascending lo hi ns (Ascending-weaken lo n ns (omega arith) a))
]

pub below-AllBelow : (hi : ℕ) (ns : List ℕ) → AllBelow hi (below hi ns)
unfolding below
below-AllBelow hi [] = tt
below-AllBelow hi (n ∷ ns) = elim (Bool-cases (ltb n hi)) [
  | inl small ↦ rw small (ground arith, below-AllBelow hi ns)
  | inr large ↦ rw large (below-AllBelow hi ns)
]

end-Covers :
    (lo hi : ℕ) (ns : List ℕ)
    → lo < hi
    → Ascending lo ns
    → AllBelow hi ns
    → Covers lo (ns ++ hi ∷ []) hi
end-Covers lo hi [] h a b = (h, refl)
end-Covers lo hi (n ∷ ns) h (up, a) (small, b) = (up, end-Covers n hi ns small a b)

-- Increasing positive boundaries below the length, with the length behind them.
pub with_end-Covers :
    (hi : ℕ) (ns : List ℕ) → Ascending 0 ns → AllBelow hi ns → Covers 0 (with_end hi ns) hi
unfolding with_end
with_end-Covers zero [] a b = refl
with_end-Covers zero (n ∷ ns) a (small, b) = absurd (omega arith)
with_end-Covers (suc hi) ns a b =
    let positive : ltb 0 (suc hi) ≡ true = ground arith in
    rw positive (end-Covers 0 (suc hi) ns (omega arith) a b)

pub Covers-Ascending : (lo hi : ℕ) (ns : List ℕ) → Covers lo ns hi → Ascending lo ns
Covers-Ascending lo hi [] c = tt
Covers-Ascending lo hi (n ∷ ns) (up, c) = (up, Covers-Ascending n hi ns c)

pub Covers-le : (lo hi : ℕ) (ns : List ℕ) → Covers lo ns hi → lo ≤ hi
Covers-le lo hi [] c = omega arith
Covers-le lo hi (n ∷ ns) (up, c) = omega (arith, Covers-le n hi ns c)

-- Not decreasing, and never below `lo`.
abbrev Rising : ℕ → List ℕ → Type 0
Rising lo [] = Unit
Rising lo (n ∷ ns) = (lo ≤ n) × Rising n ns

insert-Rising : (lo n : ℕ) (ns : List ℕ) → lo ≤ n → Rising lo ns → Rising lo (insert n ns)
unfolding insert
insert-Rising lo n [] h a = (h, tt)
insert-Rising lo n (m ∷ ms) h (up, a) = elim (Bool-cases (leb n m)) [
  | inl first ↦ rw first (h, (ground arith, a))
  | inr later ↦ rw later (up, insert-Rising m n ms (ground arith) a)
]

insert-AllBelow : (hi n : ℕ) (ns : List ℕ) → n < hi → AllBelow hi ns → AllBelow hi (insert n ns)
unfolding insert
insert-AllBelow hi n [] h b = (h, tt)
insert-AllBelow hi n (m ∷ ms) h (small, b) = elim (Bool-cases (leb n m)) [
  | inl first ↦ rw first (h, (small, b))
  | inr later ↦ rw later (small, insert-AllBelow hi n ms h b)
]

abbrev AllAbove : ℕ → List ℕ → Type 0
AllAbove lo = All (λ n. lo ≤ n)

sort-Rising : (lo : ℕ) (ns : List ℕ) → AllAbove lo ns → Rising lo (sort ns)
unfolding sort
sort-Rising lo [] a = tt
sort-Rising lo (n ∷ ns) (above, a) = insert-Rising lo n (sort ns) above (sort-Rising lo ns a)

sort-AllBelow : (hi : ℕ) (ns : List ℕ) → AllBelow hi ns → AllBelow hi (sort ns)
unfolding sort
sort-AllBelow hi [] b = tt
sort-AllBelow hi (n ∷ ns) (small, b) = insert-AllBelow hi n (sort ns) small (sort-AllBelow hi ns b)

dedup_from-Ascending : (n : ℕ) (ms : List ℕ) → Rising n ms → Ascending n (dedup_from n ms)
unfolding dedup_from
dedup_from-Ascending n [] a = tt
dedup_from-Ascending n (m ∷ ms) (up, a) = elim (Bool-cases (n == m)) [
  | inl same ↦ rw same (Ascending-weaken n m _ up (dedup_from-Ascending m ms a))
  | inr other ↦ rw other (ground arith, dedup_from-Ascending m ms a)
]

dedup_from-AllBelow : (hi n : ℕ) (ms : List ℕ) → AllBelow hi ms → AllBelow hi (dedup_from n ms)
unfolding dedup_from
dedup_from-AllBelow hi n [] b = tt
dedup_from-AllBelow hi n (m ∷ ms) (small, b) = elim (Bool-cases (n == m)) [
  | inl same ↦ rw same (dedup_from-AllBelow hi m ms b)
  | inr other ↦ rw other (small, dedup_from-AllBelow hi m ms b)
]

dedup-Ascending : (ns : List ℕ) → Rising 1 ns → Ascending 0 (dedup ns)
unfolding dedup
dedup-Ascending [] a = tt
dedup-Ascending (n ∷ ns) (up, a) = (omega arith, dedup_from-Ascending n ns a)

dedup-AllBelow : (hi : ℕ) (ns : List ℕ) → AllBelow hi ns → AllBelow hi (dedup ns)
unfolding dedup
dedup-AllBelow hi [] b = tt
dedup-AllBelow hi (n ∷ ns) (small, b) = (small, dedup_from-AllBelow hi n ns b)

-- Sorted and with duplicates dropped, positive offsets below `hi` are boundaries.
pub dedup-sort :
    (hi : ℕ) (ns : List ℕ)
    → AllAbove 1 ns
    → AllBelow hi ns
    → Ascending 0 (dedup (sort ns)) × AllBelow hi (dedup (sort ns))
dedup-sort hi ns a b = (
  dedup-Ascending (sort ns) (sort-Rising 1 ns a),
  dedup-AllBelow hi (sort ns) (sort-AllBelow hi ns b),
)

module _ (r : Random) where
  pub draw_offsets_range :
      (n len : ℕ) (g : r.Gen)
      → 1 < len
      → AllAbove 1 (draw_offsets r n len g) × AllBelow len (draw_offsets r n len g)
  unfolding draw_offsets
  draw_offsets_range zero len g h = (tt, tt)
  draw_offsets_range (suc n) len g h =
      let (lo, hi) = r.gen_range_bounds 1 len g h in
      let (above, small) = draw_offsets_range n len (r.gen_range 1 len g).1 h in
      ((lo, above), (hi, small))
