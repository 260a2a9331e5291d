-- ===== src/Generator/Distinct.antt =====
-- A generated set holds no item twice, and the search for a fresh item ends.
use evilresp.Base.Int.{pos, negsuc}
use evilresp.Base.{
  ℕ, zero, suc, ◌+◌, ◌≤◌, ◌<◌, ◌≡◌, arith, inl, inr, Bool, true, false, ◌||◌, leb, if◌then◌else◌,
  Bool-cases,
}
use evilresp.Generator.Config.{GeneratorConfig}
use evilresp.Generator.Frames.{contains, fresh, push_item, build, draw_count, set_from, len}
use evilresp.Generator.Kinds.{Kind}
use evilresp.Random.{Random}
use evilresp.Resp.Frame.{Frame, Frames, nil, cons, integer, set}
use evilresp.Resp.Same.{same}

-- An item differs from all items of a vector.
abbrev pub Apart : Frame → Frames → Type 0
Apart f nil = Unit
Apart f (cons g gs) = (same f g ≡ false) × Apart f gs

abbrev pub IsDistinct : Frames → Type 0
IsDistinct nil = Unit
IsDistinct (cons f fs) = Apart f fs × IsDistinct fs

or_false : (a b : Bool) → (a || b) ≡ false → (a ≡ false) × (b ≡ false)
or_false a b h = ground arith

push_item-Apart :
    (f : Frame) (items : Frames) (item : Frame)
    → Apart f items
    → same f item ≡ false
    → Apart f (push_item items item)
unfolding push_item
push_item-Apart f nil item a h = (h, tt)
push_item-Apart f (cons g gs) item (first, a) h = (first, push_item-Apart f gs item a h)

push_item-IsDistinct :
    (items : Frames) (item : Frame)
    → IsDistinct items
    → contains items item ≡ false
    → IsDistinct (push_item items item)
unfolding push_item contains
push_item-IsDistinct nil item d h = (tt, tt)
push_item-IsDistinct (cons f fs) item (a, d) h =
    let (first, rest) = or_false (same f item) (contains fs item) h in
    (push_item-Apart f fs item a first, push_item-IsDistinct fs item d rest)

-- An integer of at least `k`.
abbrev at_least : ℕ → Frame → Bool
at_least k (integer (pos n)) = leb k n
at_least k _ = false

above : ℕ → Frames → ℕ
above k nil = 0
above k (cons f fs) = (if at_least k f then 1 else 0) + above k fs

above-le-len : (k : ℕ) (fs : Frames) → above k fs ≤ len fs
unfolding above
above-le-len k nil = omega arith
above-le-len k (cons f fs) = ground (arith, above-le-len k fs)

at_least-suc :
    (k : ℕ) (f : Frame) → (if at_least (suc k) f then 1 else 0) ≤ (if at_least k f then 1 else 0)
at_least-suc k (integer (pos n)) = ground arith
at_least-suc k _ = omega arith

at_least-same :
    (k : ℕ) (f : Frame)
    → same f (integer (pos k)) ≡ true
    → (if at_least (suc k) f then 1 else 0) < (if at_least k f then 1 else 0)
unfolding same
at_least-same k (integer (pos n)) h = ground arith
at_least-same k (integer (negsuc n)) h = cc
at_least-same k _ h = cc

above-suc : (k : ℕ) (fs : Frames) → above (suc k) fs ≤ above k fs
unfolding above
above-suc k nil = omega arith
above-suc k (cons f fs) = omega (arith, at_least-suc k f, above-suc k fs)

-- An integer that is there is not counted from the next one on.
above-contains :
    (k : ℕ) (fs : Frames) → contains fs (integer (pos k)) ≡ true → above (suc k) fs < above k fs
unfolding above contains
above-contains k nil h = cc
above-contains k (cons f fs) h = elim (Bool-cases (same f (integer (pos k)))) [
  | inl here ↦ omega (arith, at_least-same k f here, above-suc k fs)
  | inr other ↦ omega (arith, at_least-suc k f, above-contains k fs (rw other at h))
]

fresh_integer :
    (fuel k : ℕ) (items : Frames)
    → above k items < fuel
    → contains items (fresh fuel items (integer (pos k)) (suc k)) ≡ false
unfolding fresh
fresh_integer zero k items h = absurd (omega arith)
fresh_integer (suc fuel) k items h = elim (Bool-cases (contains items (integer (pos k)))) [
  | inr free ↦ rw free free
  | inl taken ↦
      rw taken (fresh_integer fuel (suc k) items (omega (arith, above-contains k items taken)))
]

-- The search ends with an item that is not there.
fresh-contains :
    (items : Frames) (item : Frame) (k : ℕ)
    → contains items (fresh (len items + 2) items item k) ≡ false
unfolding fresh
fresh-contains items item k =
    let fuel : len items + 2 ≡ suc (len items + 1) = omega arith in
    elim (Bool-cases (contains items item)) [
      | inr free ↦ rw (fuel, free) free
      | inl taken ↦
          rw (fuel, taken)
            (fresh_integer (len items + 1) k items (omega (arith, above-le-len k items)))
    ]

abbrev pub set_items : Frame → Frames
set_items (set items) = items
set_items _ = nil

module _ (r : Random) (c : GeneratorConfig) where
  set_from-IsDistinct :
      (next : r.Gen → Frame × r.Gen) (i n : ℕ) (items : Frames) (g : r.Gen)
      → IsDistinct items
      → IsDistinct (set_from r c next i n items g).0
  unfolding set_from
  set_from-IsDistinct next i zero items g d = d
  set_from-IsDistinct next i (suc n) items g d =
      let item = fresh (len items + 2) items (next g).0 i in
      set_from-IsDistinct next (suc i) n (push_item items item) (next g).1
        (push_item-IsDistinct items item d (fresh-contains items (next g).0 i))

  -- However its children are drawn, a generated set holds no two items that are the same.
  pub build-IsDistinct :
      (next : r.Gen → Frame × r.Gen) (g : r.Gen)
      → IsDistinct (set_items (build r c next Kind.set g).0)
  unfolding build
  build-IsDistinct next g = let n = draw_count r c g in set_from-IsDistinct next 0 n.0 nil n.1 tt
