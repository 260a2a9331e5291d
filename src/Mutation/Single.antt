-- ===== src/Mutation/Single.antt =====
-- src/mutation.rs: `mutate_one`, the mutation of one frame.
use evilresp.Base.Int.{pos}
use evilresp.Base.{Bool, true, false, not, some, if◌then◌else◌}
use evilresp.Evil
use evilresp.Evil.{EvilMode, MutationKind, overflow_value, random_value, random_frame}
use evilresp.Generator.Drawn.{mutate_scalar}
use evilresp.Generator.Frames.{draw_frame}
use evilresp.Generator.Scalars.{i64_max}
use evilresp.Mutation.Config.{EvilConfig}
use evilresp.Mutation.{MutationStrategy, preserve, replace}
use evilresp.Random.{Random}
use evilresp.Resp.Frame.{
  Frame, simple_string, simple_error, integer, bulk_string, double, big_number, bulk_error,
  verbatim_string,
}
use evilresp.Resp.Same.{same, same_int}

abbrev pub is_overflow : EvilMode → Bool
is_overflow Evil.EvilMode.overflow = true
is_overflow _ = false

-- The scalars that overflow in place.
abbrev pub overflows : Frame → Bool
overflows (integer z) = true
overflows (simple_string value) = true
overflows (simple_error value) = true
overflows (double value) = true
overflows (big_number value) = true
overflows (bulk_string (some bytes)) = true
overflows (bulk_error bytes) = true
overflows (verbatim_string bytes) = true
overflows _ = false

abbrev pub is_zero : Frame → Bool
is_zero (integer z) = same_int z (pos 0)
is_zero _ = false

-- A replacement that is not the frame itself.
unfoldable pub replaced : Frame → Frame → Frame
replaced frame replacement =
    if not (same frame replacement)
    then replacement
    else if is_zero frame
    then integer (pos 1)
    else integer (pos 0)

module _ (r : Random) where
  unfoldable pub overflow_one : EvilConfig r → Frame → r.Gen → Frame × r.Gen
  overflow_one c frame g =
      if overflows frame then mutate_scalar r c.generator frame true g else (integer i64_max, g)

  -- Under a strategy.
  unfoldable pub change_one :
      EvilConfig r → MutationStrategy → Frame → r.Gen → Frame × MutationKind × r.Gen
  unfolding replaced
  change_one c preserve frame g =
      let (next, g') = mutate_scalar r c.generator frame false g in (next, random_value, g')
  change_one c replace frame g =
      let (next, g') = draw_frame r c.generator g in (replaced frame next, random_frame, g')

  -- `mutate_one`.
  unfoldable pub mutate_one : EvilConfig r → Frame → r.Gen → Frame × MutationKind × r.Gen
  unfolding overflow_one change_one
  mutate_one c frame g =
      if is_overflow c.mode
      then (let (next, g') = overflow_one c frame g in (next, overflow_value, g'))
      else change_one c c.strategy frame g
