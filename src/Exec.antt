-- ===== src/Exec.antt =====
-- src/exec_mutation.rs: edits to the outer array of an EXEC result.
mod Positions
pub mod Report
mod Tests
use evilresp.Base.Bytes.{Bytes, codes, equal, to_ascii_uppercase, eq_ignore_ascii_case}
use evilresp.Base.Options.{bind}
use evilresp.Base.{
  ℕ, zero, suc, ◌+◌, ◌-◌, ◌<◌, ◌≡◌, Bool, true, false, ◌&&◌, ◌||◌, not, List, [], ◌∷◌, ◌++◌, Option,
  none, some, length, get_elem?, take, drop, if◌then◌else◌,
}
use evilresp.Evil
use evilresp.Evil.{
  EvilMode, mutate, overflow, ExecMutation, MutationKind, exec_remove, exec_duplicate, exec_swap,
  MutatedReply,
}
use evilresp.Random.{Random, rng_for, parse_probability}
use evilresp.Resp.Encode.{encode}
use evilresp.Resp.Frame.{Frame, array}
use evilresp.Resp.Same.{same, items_of, frames_of}

pub data ExecAction : Type 0 where
  off random remove duplicate swap : ExecAction

abbrev pub is_off : ExecAction → Bool
is_off off = true
is_off _ = false

abbrev pub is_swap : ExecAction → Bool
is_swap swap = true
is_swap _ = false

abbrev pub is_editing : EvilMode → Bool
is_editing mutate = true
is_editing overflow = true
is_editing _ = false

unfoldable pub action_of : Bytes → Option ExecAction
action_of word =
    if equal word (codes "OFF")
    then some off
    else if equal word (codes "RANDOM")
    then some random
    else if equal word (codes "REMOVE")
    then some remove
    else if equal word (codes "DUPLICATE")
    then some duplicate
    else if equal word (codes "SWAP")
    then some swap
    else none

-- Some item differs from the first.
unfoldable pub can_swap : Frame → List Frame → Bool
can_swap first [] = false
can_swap first (item ∷ items) = not (same item first) || can_swap first items

-- The indices, from `i` on, of the items that differ from `chosen`.
unfoldable pub candidates : Frame → ℕ → List Frame → List ℕ
candidates chosen i [] = []
candidates chosen i (item ∷ items) =
    let rest = candidates chosen (suc i) items in if not (same item chosen) then i ∷ rest else rest

-- `Vec::remove`, `Vec::insert` and an assignment, at an index within the vector.
unfoldable pub remove_at : ℕ → List Frame → List Frame
remove_at i items = take i items ++ drop (suc i) items

unfoldable pub insert_at : ℕ → Frame → List Frame → List Frame
insert_at i item items = take i items ++ item ∷ drop i items

unfoldable pub set_at : ℕ → Frame → List Frame → List Frame
set_at i item [] = []
set_at zero item (x ∷ items) = item ∷ items
set_at (suc i) item (x ∷ items) = x ∷ set_at i item items

-- The edited vector, what was done, and the second index of a swap.
pub record Edit : Type 0 where
  pub result : List Frame
  pub kind : MutationKind
  pub other_index : Option ℕ

unfoldable pub report : ℕ → ℕ → Edit → MutatedReply
report original index e = record {
  bytes = encode (array (frames_of e.result));
  mutations =
      record {
        path = codes "root";
        kind = e.kind;
        length = none;
        exec = some (record {
          original_count = original;
          replacement_count = length e.result;
          index = index;
          other_index = e.other_index;
        });
      }
      ∷ [];
}

module _ (r : Random) where
  open r use {F64, hundred, is_zero, less, Gen, gen_percent, gen_range}

  pub record ExecConfig : Type 0 where
    pub action : ExecAction
    pub probability : F64

  -- The options behind the action.
  unfoldable pub with_options : ExecAction → List Bytes → Option ExecConfig
  with_options action [] = some (record { action = action; probability = hundred })
  with_options action (option ∷ value ∷ []) =
      if not (is_off action) && eq_ignore_ascii_case option (codes "PROBABILITY")
      then (bind (parse_probability r value)
          λ p. some (record { action = action; probability = p }))
      else none
  with_options action _ = none

  -- `ExecConfig::parse`.
  unfoldable pub parse : List Bytes → Option ExecConfig
  unfolding with_options action_of
  parse [] = none
  parse (word ∷ options) =
      bind (action_of (to_ascii_uppercase word)) λ action. with_options action options

  random_action : Bool → ℕ → ExecAction
  random_action can zero = remove
  random_action can (suc zero) = duplicate
  random_action can _ = swap

  -- The action that is carried out; only a random one costs a draw.
  unfoldable pub chosen_action : ExecAction → Bool → Gen → ExecAction × Gen
  unfolding random_action
  chosen_action random can g =
      let (n, g') = gen_range 0 (if can then 3 else 2) g in (random_action can n, g')
  chosen_action action can g = (action, g)

  -- The edit at the item `chosen` of index `i`.
  unfoldable pub edit : ExecAction → ℕ → Frame → List Frame → Gen → Option Edit
  unfolding remove_at insert_at set_at candidates
  edit remove i chosen items g =
      some (record { result = remove_at i items; kind = exec_remove; other_index = none })
  edit duplicate i chosen items g = some (record {
    result = insert_at (suc i) chosen items;
    kind = exec_duplicate;
    other_index = none;
  })
  edit swap i chosen items g =
      let others = candidates chosen 0 items in
      bind (get_elem? others (gen_range 0 (length others) g).0) λ other.
        bind (get_elem? items other) λ partner. some (record {
          result = set_at i partner (set_at other chosen items);
          kind = exec_swap;
          other_index = some other;
        })
  edit _ i chosen items g = none

  unfoldable pub edited : ExecAction → List Frame → Gen → Option MutatedReply
  unfolding edit report
  edited action items g =
      let (i, g') = gen_range 0 (length items) g in
      bind (get_elem? items i)
        λ chosen. bind (edit action i chosen items g') λ e. some (report (length items) i e)

  -- Past the check that the configured action can apply at all.
  unfoldable pub drawn : ExecConfig → Bool → List Frame → Gen → Option MutatedReply
  unfolding edited chosen_action
  drawn c can items g =
      let (x, g') = gen_percent g in
      let (action, g'') = chosen_action c.action can g' in
      if not (less x c.probability) then none else edited action items g''

  unfoldable pub mutate_items :
      ExecConfig → ℕ → ℕ → Bytes → Bytes → List Frame → Option MutatedReply
  unfolding drawn can_swap
  mutate_items c seed command_index command_hash upstream_hash [] = none
  mutate_items c seed command_index command_hash upstream_hash (first ∷ items) =
      if is_swap c.action && not (can_swap first (first ∷ items))
      then none
      else drawn c (can_swap first (first ∷ items)) (first ∷ items)
          (rng_for r seed command_index (codes "exec:" ++ command_hash) upstream_hash)

  unfoldable pub mutate_frame : ExecConfig → ℕ → ℕ → Bytes → Bytes → Frame → Option MutatedReply
  unfolding mutate_items
  mutate_frame c seed command_index command_hash upstream_hash (array items) =
      mutate_items c seed command_index command_hash upstream_hash (items_of items)
  mutate_frame c seed command_index command_hash upstream_hash _ = none

  -- `mutate_reply`.
  unfoldable pub mutate_reply :
      EvilMode → ExecConfig → ℕ → ℕ → Bytes → Bytes → Frame → Option MutatedReply
  unfolding mutate_frame
  mutate_reply mode c seed command_index command_hash upstream_hash upstream =
      if not (is_editing mode) || is_off c.action || is_zero c.probability
      then none
      else mutate_frame c seed command_index command_hash upstream_hash upstream
