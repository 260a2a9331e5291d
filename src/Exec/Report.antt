-- ===== src/Exec/Report.antt =====
-- What the edit of an EXEC result reports is what was done.
use evilresp.Base.Options.{bind-eq-some, of_some}
use evilresp.Base.Bytes.{Bytes, codes}
use evilresp.Base.{
  ℕ, zero, suc, ◌+◌, ◌-◌, ◌<◌, ◌≡◌, ◌≢◌, refl, sym, ◌∙◌, ap, arith, inl, inr, Bool, false, ◌&&◌,
  ◌||◌, not, List, [], ◌∷◌, ◌++◌, none, some, length, get_elem?, take, drop, Bool-cases,
}
use evilresp.Evil.{EvilMode, MutationKind, exec_remove, exec_duplicate, exec_swap, MutatedReply}
use evilresp.Exec.Positions.{
  get_elem?-lt, length-remove_at, length-insert_at, length-set_at, split_at, take-suc,
  length-before, get_elem?-set_at, get_elem?-set_at_other,
}
use evilresp.Exec.{
  ExecAction, off, random, remove, duplicate, swap, is_off, is_swap, is_editing, can_swap,
  candidates, set_at, Edit, report, ExecConfig, chosen_action, edit, edited, drawn, mutate_items,
  mutate_frame, mutate_reply,
}
use evilresp.Mutation.Changed.{same_refl}
use evilresp.Random.{Random}
use evilresp.Resp.Frame.{Frame, Frames, array}
use evilresp.Resp.Encode.{encode}
use evilresp.Resp.Same.{same, items_of, frames_of}

-- The length of a vector of `n` items behind an edit.
abbrev pub resized : MutationKind → ℕ → ℕ
resized exec_remove n = n - 1
resized exec_duplicate n = n + 1
resized _ n = n

-- What is done to the items: the one at the index is removed, it is followed by its copy, or it
-- changes places with a different one at a second index, and all else stays.
pub data IsEdit (items : List Frame) (i : ℕ) (e : Edit) : Type 0 where
  removed :
      (before after : List Frame) (chosen : Frame)
      → e.kind ≡ exec_remove
      → e.other_index ≡ none
      → items ≡ before ++ chosen ∷ after
      → length before ≡ i
      → e.result ≡ before ++ after
      → IsEdit items i e
  duplicated :
      (before after : List Frame) (chosen : Frame)
      → e.kind ≡ exec_duplicate
      → e.other_index ≡ none
      → items ≡ before ++ chosen ∷ after
      → length before ≡ i
      → e.result ≡ before ++ chosen ∷ (chosen ∷ after)
      → IsEdit items i e
  swapped :
      (other : ℕ) (chosen partner : Frame)
      → e.kind ≡ exec_swap
      → e.other_index ≡ some other
      → get_elem? items i ≡ some chosen
      → get_elem? items other ≡ some partner
      → same partner chosen ≡ false
      → get_elem? e.result i ≡ some partner
      → get_elem? e.result other ≡ some chosen
      → ((k : ℕ) → k ≢ i → k ≢ other → get_elem? e.result k ≡ get_elem? items k)
      → IsEdit items i e

-- The reply is the array of the edited items with one report, which names the index and the second
-- one of the edit that was made, and the counts of both arrays.
pub record IsReported (items : List Frame) (m : MutatedReply) : Type 0 where
  pub made : Edit
  pub index : ℕ
  pub bytes : m.bytes ≡ encode (array (frames_of made.result))
  pub reported :
      m.mutations
      ≡ record {
        path = codes "root";
        kind = made.kind;
        length = none;
        exec = some record {
          original_count = length items;
          replacement_count = length made.result;
          index = index;
          other_index = made.other_index;
        };
      }
        ∷ []
  pub inside : index < length items
  pub sized : length made.result ≡ resized made.kind (length items)
  pub edited_so : IsEdit items index made

-- The item at the `n`-th index from `k` on differs from the chosen one.
abbrev Differs : Frame → ℕ → List Frame → ℕ → Type 0
Differs chosen k items j =
    (n : ℕ) × (b : Frame) × (j ≡ k + n) × (get_elem? items n ≡ some b) × (same b chosen ≡ false)

Differs-later :
    (chosen x : Frame) (k : ℕ) (items : List Frame) {j : ℕ}
    → Differs chosen (suc k) items j
    → Differs chosen k (x ∷ items) j
Differs-later chosen x k items (n, b, at, there, other) =
    (suc n, b, omega (arith, at), there, other)

candidates-Differs :
    (chosen : Frame) (k s : ℕ) (items : List Frame) {j : ℕ}
    → get_elem? (candidates chosen k items) s ≡ some j
    → Differs chosen k items j
unfolding candidates
candidates-Differs chosen k s [] h = cc
candidates-Differs chosen k zero (x ∷ items) h = elim (Bool-cases (same x chosen)) [
  | inl equals ↦
      Differs-later chosen x k items (candidates-Differs chosen (suc k) zero items (rw equals at h))
  | inr differs ↦
      of_some (Differs chosen k (x ∷ items)) (rw differs at h) (zero, x, omega arith, refl, differs)
]
candidates-Differs chosen k (suc s) (x ∷ items) h = elim (Bool-cases (same x chosen)) [
  | inl equals ↦
      Differs-later chosen x k items
        (candidates-Differs chosen (suc k) (suc s) items (rw equals at h))
  | inr differs ↦
      Differs-later chosen x k items (candidates-Differs chosen (suc k) s items (rw differs at h))
]

same-ne : (a b : Frame) → same a b ≡ false → some a ≢ some b
same-ne a b h e = cc (same_refl a, of_some (λ x. same a x ≡ false) (sym e) h)

module _ (r : Random) where
  edit-IsEdit :
      (action : ExecAction) (i : ℕ) (chosen : Frame) (items : List Frame) (g : r.Gen) {e : Edit}
      → get_elem? items i ≡ some chosen
      → edit r action i chosen items g ≡ some e
      → IsEdit items i e × (length e.result ≡ resized e.kind (length items))
  unfolding edit
  edit-IsEdit off i chosen items g at h = cc
  edit-IsEdit random i chosen items g at h = cc
  edit-IsEdit remove i chosen items g at h =
      let room = get_elem?-lt items i at in
      of_some (λ e. IsEdit items i e × (length e.result ≡ resized e.kind (length items))) h
        (
          removed (take i items) (drop (suc i) items) chosen refl refl (split_at items i at)
              (length-before items i room) refl,
          length-remove_at i items room,
        )
  edit-IsEdit duplicate i chosen items g at h =
      let room = get_elem?-lt items i at in
      of_some (λ e. IsEdit items i e × (length e.result ≡ resized e.kind (length items))) h
        (
          duplicated (take i items) (drop (suc i) items) chosen refl refl (split_at items i at)
              (length-before items i room) (take-suc items i _ at),
          length-insert_at (suc i) chosen items (omega (arith, room)),
        )
  edit-IsEdit swap i chosen items g at h =
      let others = candidates chosen 0 items in
      let drawn_at = (r.gen_range 0 (length others) g).0 in
      let (other, found, rest) = bind-eq-some (get_elem? others drawn_at) _ h in
      let (n, b, same_index, there, differs) = candidates-Differs chosen 0 drawn_at items found in
      let (partner, second, done) = bind-eq-some (get_elem? items other) _ rest in
      let plain_index : other ≡ n = omega (arith, same_index) in
      let here : get_elem? items other ≡ some b = ap (get_elem? items) plain_index ∙ there in
      let differs_so : same partner chosen ≡ false =
        of_some (λ x. same x chosen ≡ false) (sym here ∙ second) differs in
      let apart : other ≢ i =
        λ e. same-ne partner chosen differs_so (sym second ∙ (ap (get_elem? items) e ∙ at)) in
      of_some (λ e. IsEdit items i e × (length e.result ≡ resized e.kind (length items))) done
        (
          swapped other chosen partner refl refl at second differs_so
              (get_elem?-set_at (set_at other chosen items) i partner
                (get_elem?-set_at_other items other i chosen (λ e. apart (sym e)) ∙ at))
              (get_elem?-set_at_other (set_at other chosen items) i other partner apart
                ∙ get_elem?-set_at items other chosen second)
              (λ k not_i not_other.
                get_elem?-set_at_other (set_at other chosen items) i k partner not_i
                ∙ get_elem?-set_at_other items other k chosen not_other),
          length-set_at i partner (set_at other chosen items) ∙ length-set_at other chosen items,
        )

  edited-IsReported :
      (action : ExecAction) (items : List Frame) (g : r.Gen) {m : MutatedReply}
      → 0 < length items
      → edited r action items g ≡ some m
      → IsReported items m
  unfolding edited report
  edited-IsReported action items g some_items h =
      let d = r.gen_range 0 (length items) g in
      let (chosen, at, rest) = bind-eq-some (get_elem? items d.0) _ h in
      let (e, made, same_reply) = bind-eq-some (edit r action d.0 chosen items d.1) _ rest in
      of_some (IsReported items) same_reply (record {
        made = e;
        index = d.0;
        bytes = refl;
        reported = refl;
        inside = get_elem?-lt items d.0 at;
        sized = (edit-IsEdit action d.0 chosen items d.1 at made).1;
        edited_so = (edit-IsEdit action d.0 chosen items d.1 at made).0;
      })

  drawn-IsReported :
      (c : ExecConfig r) (can : Bool) (items : List Frame) (g : r.Gen) {m : MutatedReply}
      → 0 < length items
      → drawn r c can items g ≡ some m
      → IsReported items m
  unfolding drawn
  drawn-IsReported c can items g some_items h =
      let x = r.gen_percent g in
      let a = chosen_action r c.action can x.1 in
      elim (Bool-cases (not (less_than x.0))) [
        | inl spared ↦ cc (rw spared at h)
        | inr hit ↦ edited-IsReported a.0 items a.1 some_items (rw hit at h)
      ]
    where
      less_than : r.F64 → Bool
      less_than p = r.less p c.probability

  mutate_items-IsReported :
      (c : ExecConfig r) (seed index : ℕ) (command upstream : Bytes) (items : List Frame)
      {m : MutatedReply}
      → mutate_items r c seed index command upstream items ≡ some m
      → IsReported items m
  unfolding mutate_items
  mutate_items-IsReported c seed index command upstream [] h = cc
  mutate_items-IsReported c seed index command upstream (first ∷ items) h =
      elim (Bool-cases (is_swap c.action && not (can_swap first (first ∷ items)))) [
        | inl unable ↦ cc (rw unable at h)
        | inr able ↦
            drawn-IsReported c (can_swap first (first ∷ items)) (first ∷ items) _ (omega arith)
              (rw able at h)
      ]

  -- Whenever a reply to EXEC is edited, the reply is an array whose one reported mutation is true: the
  -- index lies within the items; a removal leaves out the item at the index and no other, a
  -- duplication puts a copy behind it, and a swap names a second index, whose item is a different
  -- one, and exchanges these two and no other; the counts are those of the two arrays, one less after
  -- a removal, one more after a duplication and equal after a swap.
  pub mutate_reply-IsReported :
      (mode : EvilMode) (c : ExecConfig r) (seed index : ℕ) (command upstream : Bytes)
      (items : Frames) {m : MutatedReply}
      → mutate_reply r mode c seed index command upstream (array items) ≡ some m
      → IsReported (items_of items) m
  unfolding mutate_reply mutate_frame
  mutate_reply-IsReported mode c seed index command upstream items h =
      elim (Bool-cases (not (is_editing mode) || is_off c.action || r.is_zero c.probability)) [
        | inl skipped ↦ cc (rw skipped at h)
        | inr active ↦
            mutate_items-IsReported c seed index command upstream (items_of items) (rw active at h)
      ]
