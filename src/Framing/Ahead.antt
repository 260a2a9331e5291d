-- ===== src/Framing/Ahead.antt =====
-- Where the header of a frame stands in the encoding of a reply.
use evilresp.Base.Bytes.{Bytes}
use evilresp.Base.Decimal.{decimal}
use evilresp.Base.{ℕ, zero, suc, ◌-◌, [], ◌++◌, ltb, if◌then◌else◌}
use evilresp.Framing.Visit.{size_below}
use evilresp.Resp.Encode.{push_line}
use evilresp.Resp.Frame.{
  Frame, Frames, Pairs, nil, cons, end, pair, array, map, set, push, attribute, count, count_pairs,
}
use evilresp.Resp.Wire.{wire}

-- What stands ahead of the `n`-th of a frame and the frames below it, and of those behind the frame.
abbrev pub from_itself : (ℕ → Bytes) → ℕ → Bytes
from_itself within zero = []
from_itself within (suc n) = within n

abbrev pub then_ahead : Frame → (ℕ → Bytes) → (ℕ → Bytes) → ℕ → Bytes
then_ahead f within behind n =
    if ltb n (suc (size_below f))
    then from_itself within n
    else wire f ++ behind (n - suc (size_below f))

-- The bytes ahead of the `n`-th frame below a frame and in vectors: the lines of the headers around
-- it, and whole frames.
unfoldable mutual
  unfolding size_below wire

  pub ahead_below : Frame → ℕ → Bytes
  ahead_below (array items) n = push_line b'*' (decimal (count items)) ++ ahead_items items n
  ahead_below (set items) n = push_line b'~' (decimal (count items)) ++ ahead_items items n
  ahead_below (push items) n = push_line b'>' (decimal (count items)) ++ ahead_items items n
  ahead_below (map items) n = push_line b'%' (decimal (count_pairs items)) ++ ahead_pairs items n
  ahead_below (attribute items) n =
      push_line b'|' (decimal (count_pairs items)) ++ ahead_pairs items n
  ahead_below _ n = []

  pub ahead_items : Frames → ℕ → Bytes
  ahead_items nil n = []
  ahead_items (cons f fs) n = then_ahead f (ahead_below f) (ahead_items fs) n

  pub ahead_pairs : Pairs → ℕ → Bytes
  ahead_pairs end n = []
  ahead_pairs (pair k v ps) n =
      then_ahead k (ahead_below k) (then_ahead v (ahead_below v) (ahead_pairs ps)) n

-- The bytes ahead of the `n`-th frame of a reply.
unfoldable pub ahead : Frame → ℕ → Bytes
unfolding ahead_below
ahead f n = from_itself (ahead_below f) n
