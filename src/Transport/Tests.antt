-- ===== src/Transport/Tests.antt =====
-- Runs of the options, the planner and the delivery.
use evilresp.Base.Bytes.{Bytes, codes, to_ascii_uppercase, equal}
use evilresp.Base.Decimal.{parse_unsigned}
use evilresp.Base.{◌≡◌, ◌≢◌, refl, arith, List, [], ◌∷◌, some, length}
use evilresp.Samples.{least, trickle, transcript, trickle_patience}
use evilresp.Transport.Config.{
  at, TransportConfig, default_transport, updated, enabled, IsValid, set_options, key_of,
  option_pairs, is_off_word, set_option, parse_cut, parse_chunks, parse_extra, apply_pairs,
  compatible, offset, split_commas, chunk_offsets,
}
use evilresp.Transport.Covers.{Covers}
use evilresp.Transport.Deliver.{
  deliver, done, pending, run, write_chunks, write_chunk, write_counted,
}
use evilresp.Transport.Delivered.{deliver-IsAccounted, deliver-IsWhole, IsWhole}
use evilresp.Transport.Fault.{default_fault, plan_fault}
use evilresp.Transport.Plan.{plan, wire_bytes, plain, delivery_plan}
use evilresp.Transport.Planned.{plan-Covers}
use evilresp.Transport.Sent.{IsAccounted}
use evilresp.Transport.Settled.{run-ne-pending}
use evilresp.Transport.Valid.{updated-IsValid, default_transport-IsValid}

abbrev cut_argv : List Bytes
cut_argv =
    codes "truncate" ∷ codes "7" ∷ codes "CHUNKS" ∷ codes "2,5" ∷ codes "EXTRA" ∷ codes "1" ∷ []

abbrev cut_config : TransportConfig least
cut_config = record {
  truncate = at 7;
  extra = 1;
  chunks = at (2 ∷ 5 ∷ []);
  probability = least.hundred;
  fault = default_fault;
}

updated-cut_argv : updated least (default_transport least) cut_argv ≡ some cut_config
unfolding least updated is_off_word option_pairs apply_pairs set_options key_of set_option parse_cut
    parse_chunks parse_extra compatible offset split_commas chunk_offsets equal to_ascii_uppercase
    parse_unsigned
updated-cut_argv = refl

updated-IsValid_example : IsValid least cut_config
updated-IsValid_example =
    updated-IsValid least (default_transport least) cut_argv (default_transport-IsValid least)
      updated-cut_argv

abbrev ok_reply : Bytes
ok_reply = codes "+OK\r\n"

cut_plan :
    wire_bytes (plan least cut_config 0 1 [] [] (length ok_reply)) ok_reply ≡ codes "+OK\r\n+E"
unfolding least wire_bytes plan delivery_plan plan_fault enabled
cut_plan = refl

plan-Covers_example :
    Covers 0
      (plan least cut_config 0 1 [] [] (length ok_reply)).chunk_ends
      (length (wire_bytes (plan least cut_config 0 1 [] [] (length ok_reply)) ok_reply))
plan-Covers_example = plan-Covers least cut_config 0 1 [] [] ok_reply updated-IsValid_example

unfoldable interrupted_twice : trickle.State
unfolding trickle
interrupted_twice = record { sent = []; interrupts = 2 }

unfoldable nothing : transcript.State
unfolding transcript
nothing = []

deliver-IsAccounted_example :
    IsAccounted trickle transcript
      (wire_bytes (plan least cut_config 0 1 [] [] (length ok_reply)) ok_reply)
      interrupted_twice
      nothing
      (deliver trickle transcript least.sha256 4 interrupted_twice nothing
        (wire_bytes (plan least cut_config 0 1 [] [] (length ok_reply)) ok_reply)
        (plan least cut_config 0 1 [] [] (length ok_reply))).1
deliver-IsAccounted_example =
    deliver-IsAccounted least trickle transcript cut_config 0 1 [] [] ok_reply 4 interrupted_twice
      nothing updated-IsValid_example

whole_run :
    (deliver trickle transcript least.sha256 9 interrupted_twice nothing
      (wire_bytes (plan least cut_config 0 1 [] [] (length ok_reply)) ok_reply)
      (plan least cut_config 0 1 [] [] (length ok_reply))).1.ended
    ≡ done
unfolding least trickle transcript wire_bytes plan delivery_plan plan_fault enabled deliver run
    write_chunks write_chunk write_counted interrupted_twice nothing
whole_run = refl

deliver-IsWhole_example :
    IsWhole least.sha256
      (wire_bytes (plan least cut_config 0 1 [] [] (length ok_reply)) ok_reply)
      (plan least cut_config 0 1 [] [] (length ok_reply))
      (deliver trickle transcript least.sha256 9 interrupted_twice nothing
        (wire_bytes (plan least cut_config 0 1 [] [] (length ok_reply)) ok_reply)
        (plan least cut_config 0 1 [] [] (length ok_reply))).0
deliver-IsWhole_example =
    deliver-IsWhole least trickle transcript cut_config 0 1 [] [] ok_reply 9 interrupted_twice
      nothing updated-IsValid_example whole_run

run-ne-pending_example :
    (run trickle transcript 7 interrupted_twice nothing ok_reply (plain 5)).ended ≢ pending
unfolding trickle_patience interrupted_twice
run-ne-pending_example =
    run-ne-pending trickle transcript trickle_patience 7 interrupted_twice nothing ok_reply
      (plain 5) (omega arith)
