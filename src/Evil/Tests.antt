-- ===== src/Evil/Tests.antt =====
-- Runs of canonicalization.
use evilresp.Base.Bytes.{codes, equal, eq_ignore_ascii_case, to_ascii_uppercase, to_ascii_lowercase}
use evilresp.Base.Decimal.{decimal, decimal_int}
use evilresp.Base.Int.{pos}
use evilresp.Base.Sort.{sort, insert}
use evilresp.Base.Orders.{at_most, at_most_pair}
use evilresp.Framing.Mutate.{mutate_length, fault_of, drawn_length, header_fault}
use evilresp.Framing.Select.{select_header, reservoir}
use evilresp.Framing.Visit.{visit, visit_below}
use evilresp.Random.{should_apply}
use evilresp.Mutation.Many.{mutate_many}
use evilresp.Mutation.{eligible}
use evilresp.Base.{ℕ, ◌≡◌, refl, [], some, none}
use evilresp.Evil.Canonical.{
  canonicalize_reply, unordered_reply, by_contents, contents_of, array_pairs, sort_chunks, chunks,
  remainder, flat, unordered_containers,
}
use evilresp.Evil.Idempotent.{canonicalize_reply_idempotent}
use evilresp.Evil.Shuffled.{canonicalize_reply_perm}
use evilresp.Evil.Replied.{mutate_command_reply-unreported}
use evilresp.Evil.Replies.{mutate_reply, mutate_command_reply}
use evilresp.Evil.{unordered, all}
use evilresp.Exec
use evilresp.Mutation.Whole
use evilresp.Samples.{least, evil_config}
use evilresp.Resp.Encode.{encode, encode_into, declared_length}
use evilresp.Resp.Frame.{Frame, Frames, nil, cons, null, integer, array, set}
use evilresp.Resp.Same.{items_of}
use mathlib.Core.List.{Permᴰ}

abbrev int : ℕ → Frame
int n = integer (pos n)

abbrev hash : Frame
hash = array (cons (int 2) (cons (int 9) (cons (int 1) (cons (int 8) (cons (int 0) nil)))))

canonicalize_reply-hash :
    canonicalize_reply unordered (some (codes "hgetall")) hash
    ≡ array (cons (int 1) (cons (int 8) (cons (int 2) (cons (int 9) (cons (int 0) nil)))))
unfolding canonicalize_reply unordered_reply by_contents contents_of array_pairs sort_chunks chunks
    remainder flat unordered_containers equal to_ascii_uppercase sort insert at_most at_most_pair
    encode encode_into decimal decimal_int
canonicalize_reply-hash = refl

canonicalize_reply_idempotent_example :
    canonicalize_reply unordered none (canonicalize_reply unordered none hash)
    ≡ canonicalize_reply unordered none hash
canonicalize_reply_idempotent_example = canonicalize_reply_idempotent unordered none hash

abbrev up : Frames
up = cons (int 1) (cons (int 2) nil)

abbrev down : Frames
down = cons (int 2) (cons (int 1) nil)

up_down : Permᴰ (items_of up) (items_of down)
unfolding items_of
up_down = Permᴰ.swap refl refl

canonicalize_reply_perm_example :
    encode (canonicalize_reply all none (set up)) ≡ encode (canonicalize_reply all none (set down))
canonicalize_reply_perm_example = canonicalize_reply_perm all none up down (λ e. cc) up_down

-- A frame that no mutation applies to.
mutate_command_reply-null :
    (mutate_command_reply least evil_config 1 (some (codes "exec")) [] [] null).mutations ≡ []
unfolding mutate_command_reply mutate_reply Whole.mutate Whole.mutate_all mutate_many least
    Exec.mutate_reply eq_ignore_ascii_case equal to_ascii_lowercase eligible mutate_length fault_of
    drawn_length header_fault select_header reservoir visit visit_below declared_length should_apply
mutate_command_reply-null = refl

mutate_command_reply-unreported_example :
    (mutate_command_reply least evil_config 1 (some (codes "exec")) [] [] null).bytes ≡ encode null
mutate_command_reply-unreported_example =
    mutate_command_reply-unreported least evil_config 1 [] [] null (some (codes "exec"))
      mutate_command_reply-null
