-- ===== src/Framing/Tests.antt =====
-- Runs of framing mutation.
use evilresp.Base.Bytes.{codes, equal, to_ascii_lowercase, eq_ignore_ascii_case, split_on}
use evilresp.Base.Decimal.{decimal, decimal_int, parse_unsigned}
use evilresp.Base.Int.{pos}
use evilresp.Base.Options.{of_some}
use evilresp.Base.{zero, suc, ◌≡◌, ◌≢◌, arith, refl, sym, [], some}
use evilresp.Evil
use evilresp.Evil.{MutatedReply, overflow}
use evilresp.Framing.Ahead.{ahead}
use evilresp.Framing.Config.{path, parse_target, root_path, path_parts, path_part}
use evilresp.Framing.Corrupt.{corrupt_length}
use evilresp.Framing.Differs.{IsLength, corrupt_length-ne}
use evilresp.Framing.Faulty.{FaultyReply, FitsMemory, mutate_length-FaultyReply}
use evilresp.Framing.Mutate.{
  faulty_reply, mutate_length, fault_of, drawn_length, header_fault, draw_kind,
}
use evilresp.Framing.Select.{select_header, reservoir, offer, keep}
use evilresp.Framing.Splice.{Splice}
use evilresp.Framing.Spliced.{encode_with_length-Splice}
use evilresp.Framing.Visit.{Visited, visit, visit_below}
use evilresp.Random.{should_apply}
use evilresp.Resp.Encode.{encode, encode_with_length, declared_length}
use evilresp.Resp.Frame.{Frame, nil, cons, simple_string, bulk_string, array}
use evilresp.Samples.{least, evil_config}

parse_target-mixed : parse_target (codes "Root.01.KEY") ≡ some (path (codes "root.1.key"))
unfolding parse_target root_path path_parts path_part equal to_ascii_lowercase eq_ignore_ascii_case
    parse_unsigned decimal split_on
parse_target-mixed = refl

abbrev two_items : Frame
two_items = array (cons (simple_string (codes "a")) (cons (bulk_string (some (codes "foo"))) nil))

ahead_foo : ahead two_items 2 ≡ codes "*2\r\n+a\r\n"
unfolding ahead decimal
ahead_foo = refl

abbrev foo : Visited
foo = record { frame = bulk_string (some (codes "foo")); path = codes "root.1"; depth = 1 }

encode_with_length-Splice_example :
    Splice
      (ahead two_items 2)
      (encode foo.frame)
      (decimal_int (pos 3))
      (codes "-9")
      (encode two_items)
      (encode_with_length two_items 2 (codes "-9"))
unfolding declared_length visit visit_below decimal
encode_with_length-Splice_example =
    encode_with_length-Splice (codes "-9") foo (pos 3) refl two_items (codes "root") 2 refl

corrupt_length-ne_example :
    (corrupt_length least (pos 3) overflow (least.from_seed [])).0 ≢ decimal_int (pos 3)
corrupt_length-ne_example =
    corrupt_length-ne least (pos 3) overflow (least.from_seed []) (omega arith)

two_items-FitsMemory : FitsMemory two_items
unfolding declared_length visit visit_below
two_items-FitsMemory zero v z e d =
    let here : declared_length two_items ≡ some z =
      of_some (λ w. declared_length w.frame ≡ some z) (sym e) d in
    of_some IsLength here (omega arith)
two_items-FitsMemory (suc zero) v z e d =
    cc (of_some (λ w. declared_length w.frame ≡ some z) (sym e) d)
two_items-FitsMemory (suc (suc zero)) v z e d =
    let here : declared_length foo.frame ≡ some z =
      of_some (λ w. declared_length w.frame ≡ some z) (sym e) d in
    of_some IsLength here (omega arith)
two_items-FitsMemory (suc (suc (suc n))) v z e d = cc

abbrev longer_foo : MutatedReply
longer_foo = faulty_reply two_items (record {
  header = record { index = 2; path = codes "root.1"; original = pos 3 };
  kind = Evil.LengthCorruption.longer;
  replacement = decimal_int (pos 4);
})

mutate_length-two_items :
    (mutate_length least evil_config two_items (least.from_seed [])).0 ≡ some longer_foo
unfolding least mutate_length fault_of drawn_length header_fault draw_kind should_apply
    select_header reservoir offer keep visit visit_below declared_length corrupt_length decimal
    equal
mutate_length-two_items = refl

mutate_length-FaultyReply_example : FaultyReply two_items longer_foo
mutate_length-FaultyReply_example =
    mutate_length-FaultyReply least two_items two_items-FitsMemory evil_config (least.from_seed [])
      longer_foo mutate_length-two_items
