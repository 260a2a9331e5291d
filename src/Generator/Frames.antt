-- ===== src/Generator/Frames.antt =====
-- src/generator.rs: the generated frames. `levels` is the number of levels that may follow below a
-- frame, `MAX_DEPTH` less the source's `depth`.
use evilresp.Base.Bytes.{codes}
use evilresp.Base.Decimal.{decimal}
use evilresp.Base.Int.{pos}
use evilresp.Base.{
  ℕ, zero, suc, ◌+◌, ◌-◌, Bool, true, false, ◌&&◌, ◌||◌, [], ◌∷◌, ◌++◌, some, none, length, get_or,
  ltb, ◌==◌, if◌then◌else◌,
}
use evilresp.Generator.Config.{GeneratorConfig}
use evilresp.Generator.Drawn.{
  pick, draws_boundary, violate, draw_integer, draw_text, draw_blob, draw_double, draw_big_number,
  draw_bulk_error, draw_verbatim,
}
use evilresp.Generator.Kinds.{Kind, kinds_of, aggregates, is_resp2}
use evilresp.Random.{Random}
use evilresp.Resp.Frame.{
  Frame, Frames, Pairs, nil, cons, end, pair, simple_string, simple_error, integer, bulk_string,
  array, null_array, null, boolean, double, big_number, bulk_error, verbatim_string, map, set, push,
  attribute,
}
use evilresp.Resp.Same.{same}

abbrev pub max_depth : ℕ
max_depth = 3

abbrev pub max_items : ℕ
max_items = 4

-- `items.contains(&item)`, which compares each item with the new one.
unfoldable pub contains : Frames → Frame → Bool
contains nil item = false
contains (cons f fs) item = same f item || contains fs item

-- The loop that looks for an item that is not there: `integer fallback`, the next one, and so on.
unfoldable pub fresh : ℕ → Frames → Frame → ℕ → Frame
fresh zero items item fallback = item
fresh (suc fuel) items item fallback =
    let other = fresh fuel items (integer (pos fallback)) (suc fallback) in
    if contains items item then other else item

-- `items.push(item)`.
unfoldable pub push_item : Frames → Frame → Frames
push_item nil item = cons item nil
push_item (cons f fs) item = cons f (push_item fs item)

abbrev pub len : Frames → ℕ
len nil = 0
len (cons f fs) = suc (len fs)

module _ (r : Random) (c : GeneratorConfig) where
  open r use {Gen, gen_range, gen_range_inclusive, gen_flag}

  unfoldable pub draw_count : Gen → ℕ × Gen
  unfolding draws_boundary
  draw_count g =
      let (at_boundary, g') = draws_boundary r c g in
      if at_boundary
      then pick r 0 (0 ∷ 1 ∷ max_items ∷ []) g'
      else gen_range_inclusive 0 max_items g'

  -- Vectors of frames that `next` generates.
  unfoldable pub items_from : (Gen → Frame × Gen) → ℕ → Gen → Frames × Gen
  items_from next zero g = (nil, g)
  items_from next (suc n) g =
      let (f, g') = next g in let (fs, g'') = items_from next n g' in (cons f fs, g'')

  unfoldable pub pairs_from : (Gen → Frame × Gen) → ℕ → ℕ → Gen → Pairs × Gen
  pairs_from next index zero g = (end, g)
  pairs_from next index (suc n) g =
      let (f, g') = next g in
      let (ps, g'') = pairs_from next (suc index) n g' in
      (pair (bulk_string (some (codes "key:" ++ decimal index))) f ps, g'')

  unfoldable pub set_from : (Gen → Frame × Gen) → ℕ → ℕ → Frames → Gen → Frames × Gen
  unfolding fresh push_item
  set_from next index zero items g = (items, g)
  set_from next index (suc n) items g =
      let (f, g') = next g in
      set_from next (suc index) n (push_item items (fresh (len items + 2) items f index)) g'

  -- `build`, with the generator of the children.
  unfoldable pub build : (Gen → Frame × Gen) → Kind → Gen → Frame × Gen
  unfolding draw_text draw_integer draw_blob draw_double draw_big_number draw_bulk_error
      draw_verbatim draw_count items_from pairs_from set_from
  build next Kind.string g = let (text, g') = draw_text r c g in (simple_string text, g')
  build next Kind.error g =
      let (text, g') = draw_text r c g in (simple_error (codes "ERR " ++ text), g')
  build next Kind.integer g = let (z, g') = draw_integer r c g in (integer z, g')
  build next Kind.blob g = let (b, g') = draw_blob r c g in (bulk_string (some b), g')
  build next Kind.null_blob g = (bulk_string none, g)
  build next Kind.null_array g = (null_array, g)
  build next Kind.null g = (null, g)
  build next Kind.boolean g = let (b, g') = gen_flag g in (boolean b, g')
  build next Kind.double g = let (d, g') = draw_double r c false g in (double d, g')
  build next Kind.big_number g = let (n, g') = draw_big_number r c false g in (big_number n, g')
  build next Kind.bulk_error g = let (b, g') = draw_bulk_error r c g in (bulk_error b, g')
  build next Kind.verbatim g = let (b, g') = draw_verbatim r c g in (verbatim_string b, g')
  build next Kind.array g =
      let (n, g') = draw_count g in let (items, g'') = items_from next n g' in (array items, g'')
  build next Kind.map g =
      let (n, g') = draw_count g in let (items, g'') = pairs_from next 0 n g' in (map items, g'')
  build next Kind.set g =
      let (n, g') = draw_count g in let (items, g'') = set_from next 0 n nil g' in (set items, g'')

  unfoldable pub sideband_frame : ℕ → Frame
  sideband_frame zero = push (cons (bulk_string (some (codes "message"))) nil)
  sideband_frame (suc n) = attribute (pair (simple_string (codes "meta")) (integer (pos 1)) end)

  -- The violation with this number.
  unfoldable pub violation_of : Bool → ℕ → Frame
  unfolding sideband_frame
  violation_of sideband n =
      if n == 0
      then double (codes "1e")
      else if n == 1
      then big_number (codes "12x")
      else if n == 2
      then verbatim_string (codes "bad")
      else if sideband && (n == 3 || n == 4)
      then sideband_frame (n - 3)
      else boolean true

  -- `violation`; side-band frames need a level below.
  unfoldable pub violation : ℕ → Gen → Frame × Gen
  unfolding violation_of
  violation levels g =
      let sideband = ltb 0 levels in
      let (n, g') = gen_range 0 ((if sideband then 5 else 3) + is_resp2 c.protocol) g in
      (violation_of sideband n, g')

  abbrev pub available : ℕ → ℕ
  available zero = length (kinds_of c.protocol) - aggregates c.protocol
  available (suc levels) = length (kinds_of c.protocol)

  unfoldable pub valid_frame : (Gen → Frame × Gen) → ℕ → Gen → Frame × Gen
  unfolding build
  valid_frame next levels g =
      let (i, g') = gen_range 0 (available levels) g in
      build next (get_or (kinds_of c.protocol) i Kind.string) g'

  unfoldable pub choose_frame : (Gen → Frame × Gen) → ℕ → Gen → Frame × Gen
  unfolding valid_frame violation violate
  choose_frame next levels g =
      let (bad, g') = violate r c g in
      if bad then violation levels g' else valid_frame next levels g'

  -- At the bottom no aggregate is drawn, so that the children are never asked for.
  unfoldable pub nothing : Gen → Frame × Gen
  nothing g = (null, g)

  -- `frame_at`.
  unfoldable pub frame_at : ℕ → Gen → Frame × Gen
  unfolding choose_frame nothing
  frame_at zero g = choose_frame nothing zero g
  frame_at (suc levels) g = choose_frame (frame_at levels) (suc levels) g

  -- `GeneratorConfig::frame`.
  unfoldable pub draw_frame : Gen → Frame × Gen
  unfolding frame_at
  draw_frame g = frame_at (max_depth - 1) g
