-- ===== src/Generator/Tests.antt =====
-- Runs of the generator.
use evilresp.Base.Int.{pos}
use evilresp.Base.{◌≤◌, ◌≡◌, ◌≢◌, refl, false, []}
use evilresp.Generator.Bounds.{draw_frame-depth}
use evilresp.Generator.Config.{default_generator}
use evilresp.Generator.Different.{mutate_scalar-ne}
use evilresp.Generator.Distinct.{IsDistinct, set_items, build-IsDistinct}
use evilresp.Generator.Drawn.{mutate_scalar, draws_boundary}
use evilresp.Generator.Frames.{build, draw_frame, draw_count, set_from, fresh, push_item, contains}
use evilresp.Generator.Kinds.{Kind}
use evilresp.Mutation.{eligible_kind}
use evilresp.Resp.Frame.{Frame, nil, cons, integer}
use evilresp.Resp.Same.{same, same_int}
use evilresp.Resp.Wire.{depth}
use evilresp.Samples.{least, most}

mutate_scalar-ne_example :
    (mutate_scalar least default_generator (integer (pos 7)) false (least.from_seed [])).0
    ≢ integer (pos 7)
unfolding eligible_kind
mutate_scalar-ne_example =
    mutate_scalar-ne least default_generator (integer (pos 7)) false (least.from_seed []) refl

draw_frame-depth_example : depth (draw_frame least default_generator (least.from_seed [])).0 ≤ 3
draw_frame-depth_example = draw_frame-depth least default_generator (least.from_seed [])

-- Children that are all the same.
abbrev zeros : most.Gen → Frame × most.Gen
zeros g = (integer (pos 0), g)

build-zeros :
    set_items (build most default_generator zeros Kind.set (most.from_seed [])).0
    ≡ cons
        (integer (pos 0))
        (cons (integer (pos 1)) (cons (integer (pos 2)) (cons (integer (pos 3)) nil)))
unfolding build draw_count draws_boundary set_from fresh push_item contains same same_int most
build-zeros = refl

build-IsDistinct_example :
    IsDistinct (set_items (build most default_generator zeros Kind.set (most.from_seed [])).0)
build-IsDistinct_example = build-IsDistinct most default_generator zeros (most.from_seed [])
