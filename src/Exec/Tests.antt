-- ===== src/Exec/Tests.antt =====
-- Runs of the edits to EXEC results.
use evilresp.Base.Bytes.{codes, equal, to_ascii_uppercase, eq_ignore_ascii_case}
use evilresp.Base.Decimal.{parse_unsigned}
use evilresp.Base.{◌≡◌, refl, [], ◌∷◌, some}
use evilresp.Evil.{mutate, exec_swap, MutatedReply}
use evilresp.Exec.{
  swap, ExecConfig, parse, action_of, mutate_reply, mutate_frame, report, drawn, edited, edit,
  can_swap,
}
use evilresp.Exec.Report.{IsReported, mutate_reply-IsReported}
use evilresp.Random.{parse_probability}
use evilresp.Resp.Frame.{Frames, nil, cons, simple_string, array}
use evilresp.Resp.Same.{same, items_of}
use evilresp.Samples.{least}

abbrev always_swap : ExecConfig least
always_swap = record { action = swap; probability = least.hundred }

parse-always_swap :
    parse least (codes "swap" ∷ codes "Probability" ∷ codes "100" ∷ []) ≡ some always_swap
unfolding least parse action_of equal to_ascii_uppercase eq_ignore_ascii_case parse_probability
    parse_unsigned
parse-always_swap = refl

abbrev two_replies : Frames
two_replies = cons (simple_string (codes "a")) (cons (simple_string (codes "b")) nil)

abbrev swapped : MutatedReply
swapped = report 2 0 (record {
  result = simple_string (codes "b") ∷ simple_string (codes "a") ∷ [];
  kind = exec_swap;
  other_index = some 1;
})

mutate_reply-two_replies :
    mutate_reply least mutate always_swap 7 1 [] [] (array two_replies) ≡ some swapped
unfolding least mutate_reply mutate_frame items_of same equal drawn edited edit can_swap
mutate_reply-two_replies = refl

mutate_reply-IsReported_example : IsReported (items_of two_replies) swapped
mutate_reply-IsReported_example =
    mutate_reply-IsReported least mutate always_swap 7 1 [] [] two_replies mutate_reply-two_replies
