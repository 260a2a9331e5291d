-- ===== src/Mutation/Tests.antt =====
-- Runs of the selection.
use evilresp.Base.Bytes.{codes, equal}
use evilresp.Base.Decimal.{decimal, decimal_int}
use evilresp.Base.Int.{pos}
use evilresp.Base.{◌≡◌, ◌≢◌, refl, sym, zero, suc, arith, ◌∷◌, none, true, [], some, ltb}
use evilresp.Base.Options.{of_some}
use evilresp.Framing.Config
use evilresp.Framing.Corrupt.{corrupt_length}
use evilresp.Framing.Differs.{IsLength}
use evilresp.Framing.Faulty.{FitsMemory}
use evilresp.Framing.Mutate.{mutate_length, fault_of, drawn_length, header_fault, draw_kind}
use evilresp.Framing.Select.{select_header, reservoir, offer, keep}
use evilresp.Framing.Visit.{visit, visit_below}
use evilresp.Random.{should_apply}
use evilresp.Evil.{mutate, one, random_value, MutationKind}
use evilresp.Mutation.Answers.{mutate-unreported, IsSingle, mutate-IsSingle}
use evilresp.Mutation.Changed.{mutate_one-ne}
use evilresp.Mutation.Config.{EvilConfig}
use evilresp.Mutation.Many.{mutate_many}
use evilresp.Mutation.Reported.{Honest, mutate_many-Honest}
use evilresp.Mutation.Single.{mutate_one, change_one}
use evilresp.Mutation.Whole
use evilresp.Resp.Encode.{encode, encode_with_length, declared_length}
use evilresp.Mutation.{
  SelectConfig, preserve, inner, eligible_weight, mutate_selected, hit, mutated, weight, eligible,
  below, enter, children_weight, own_weight, select_weight,
}
use evilresp.Mutation.Selected.{is_hit, mutate_selected-eligible_weight, select_weight-is_hit}
use evilresp.Resp.Frame.{Frame, nil, cons, null, integer, simple_string, array}
use evilresp.Samples.{least, evil_config}

abbrev deep : SelectConfig
deep = record { mode = mutate; strategy = preserve; depth = inner }

abbrev to_zero : Frame → Frame × MutationKind
to_zero frame = (integer (pos 0), random_value)

abbrev nested : Frame
nested = array (cons (simple_string (codes "a")) (cons (array (cons (integer (pos 7)) nil)) nil))

nested_weight : eligible_weight deep nested 0 ≡ 6
unfolding eligible_weight children_weight own_weight weight eligible
nested_weight = refl

nested_last :
    mutate_selected deep to_zero nested 5
    ≡ hit
        (array (cons (simple_string (codes "a")) (cons (array (cons (integer (pos 0)) nil)) nil)))
        (mutated deep to_zero (codes "root.1.0") (integer (pos 7)))
unfolding mutate_selected below enter weight eligible decimal
nested_last = refl

mutate_selected-eligible_weight_example :
    is_hit deep to_zero (mutate_selected deep to_zero nested 5)
    ≡ ltb 5 (eligible_weight deep nested 0)
mutate_selected-eligible_weight_example = mutate_selected-eligible_weight deep to_zero nested 5

abbrev generator : least.Gen
generator = least.from_seed []

drawn_offset :
    select_weight least deep nested generator ≡ some (0, (least.gen_range 0 6 generator).1)
unfolding select_weight eligible_weight children_weight own_weight weight eligible least
drawn_offset = refl

select_weight-is_hit_example : is_hit deep to_zero (mutate_selected deep to_zero nested 0) ≡ true
select_weight-is_hit_example = select_weight-is_hit least deep to_zero nested generator drawn_offset

mutate_one-ne_example :
    (mutate_one least evil_config (integer (pos 7)) generator).0 ≢ integer (pos 7)
unfolding eligible
mutate_one-ne_example = mutate_one-ne least evil_config (integer (pos 7)) generator refl

mutate_many-Honest_example :
    Honest least evil_config nested (mutate_many least evil_config nested generator)
mutate_many-Honest_example = mutate_many-Honest least evil_config nested generator

-- A frame that no mutation applies to, and no length.
mutate-null : (Whole.mutate least evil_config null generator).mutations ≡ []
unfolding least Whole.mutate Whole.mutate_all mutate_many eligible mutate_length fault_of
    drawn_length header_fault select_header reservoir visit visit_below declared_length should_apply
    equal
mutate-null = refl

mutate-unreported_example : (Whole.mutate least evil_config null generator).bytes ≡ encode null
mutate-unreported_example = mutate-unreported least evil_config null generator mutate-null

-- One mutation, of a value or of the length of `root.1`.
abbrev single_value : EvilConfig least
single_value = record evil_config { mutation_count = one; framing = Config.FramingConfig.off }

abbrev single_length : EvilConfig least
single_length = record evil_config { mutation_count = one }

mutate-single_value :
    (Whole.mutate least single_value nested generator).mutations
    ≡ record { path = codes "root.0"; kind = random_value; length = none; exec = none } ∷ []
unfolding least Whole.mutate Whole.mutate_single Whole.one_value mutate_selected below enter weight
    eligible decimal select_weight eligible_weight children_weight own_weight should_apply
    mutate_one change_one
mutate-single_value = refl

nested-FitsMemory : FitsMemory nested
unfolding declared_length visit visit_below
nested-FitsMemory zero v z e d =
    let here : declared_length nested ≡ some z =
      of_some (λ w. declared_length w.frame ≡ some z) (sym e) d in
    of_some IsLength here (omega arith)
nested-FitsMemory (suc zero) v z e d =
    cc (of_some (λ w. declared_length w.frame ≡ some z) (sym e) d)
nested-FitsMemory (suc (suc zero)) v z e d =
    let here : declared_length (array (cons (integer (pos 7)) nil)) ≡ some z =
      of_some (λ w. declared_length w.frame ≡ some z) (sym e) d in
    of_some IsLength here (omega arith)
nested-FitsMemory (suc (suc (suc zero))) v z e d =
    cc (of_some (λ w. declared_length w.frame ≡ some z) (sym e) d)
nested-FitsMemory (suc (suc (suc (suc n)))) v z e d = cc

mutate-IsSingle_example :
    IsSingle least single_value nested (Whole.mutate least single_value nested generator)
mutate-IsSingle_example = mutate-IsSingle least single_value nested nested-FitsMemory generator refl

-- The length goes first, and no value is mutated then.
mutate-single_length :
    (Whole.mutate least single_length nested generator).bytes ≡ codes "*2\r\n+a\r\n*2\r\n:7\r\n"
unfolding least Whole.mutate Whole.mutate_single mutate_length fault_of drawn_length header_fault
    draw_kind should_apply select_header reservoir offer keep visit visit_below declared_length
    corrupt_length decimal decimal_int equal encode_with_length
mutate-single_length = refl
