-- ===== src/Evil/Shuffled.antt =====
-- The canonical form of a set does not depend on the order in which the upstream lists its items.
use evilresp.Base.Bytes.{Bytes}
use evilresp.Base.Decimal.{decimal}
use evilresp.Base.Orders.{bytes_order}
use evilresp.Base.Sort.{sort, keys, keys-sort_perm}
use evilresp.Base.{suc, ◌≡◌, ◌≢◌, refl, sym, ◌∙◌, ap, List, [], ◌∷◌, ◌++◌, Option, length}
use evilresp.Evil.Canonical.{
  sort_key, sort_items, all_containers, all_items, unordered_containers, unordered_items,
  array_items, array_pairs, Contents, of_pairs, of_items, ordered, contents, by_contents,
  unordered_reply, canonicalize_reply,
}
use evilresp.Evil.Sorted.{items_of-frames_of}
use evilresp.Evil.{CanonicalizationMode, all, unordered}
use evilresp.Evil
use evilresp.Resp.Encode.{encode, push_line}
use evilresp.Resp.Frame.{Frames, nil, cons, set, count}
use evilresp.Resp.Same.{items_of}
use evilresp.Resp.Wire.{wire, wire_items, encode-wire}
use mathlib.Core.List.{map, Permᴰ}
use mathlib.Core.List.Permᴰ

-- The bytes of a set, from those of its items.
abbrev joined : List Bytes → Bytes
joined [] = []
joined (x ∷ xs) = x ++ joined xs

wire_items-keys : (fs : Frames) → wire_items fs ≡ joined (keys bytes_order sort_key (items_of fs))
unfolding wire items_of
wire_items-keys nil = refl
wire_items-keys (cons f fs) = cc (encode-wire f, wire_items-keys fs)

count-keys : (fs : Frames) → count fs ≡ length (keys bytes_order sort_key (items_of fs))
unfolding items_of
count-keys nil = refl
count-keys (cons f fs) = ap suc (count-keys fs)

encode_set :
    (a b : Frames)
    → keys bytes_order sort_key (items_of a) ≡ keys bytes_order sort_key (items_of b)
    → encode (set a) ≡ encode (set b)
unfolding wire
encode_set a b e =
    let same_count : count a ≡ count b = count-keys a ∙ ap length e ∙ sym (count-keys b) in
    let same_items : wire_items a ≡ wire_items b =
      wire_items-keys a ∙ ap joined e ∙ sym (wire_items-keys b) in
    encode-wire (set a)
    ∙ ap (λ n. push_line b'~' (decimal n) ++ wire_items a) same_count
    ∙ ap (λ w. push_line b'~' (decimal (count b)) ++ w) same_items
    ∙ sym (encode-wire (set b))

sorted_set :
    (a b : Frames)
    → Permᴰ (items_of a) (items_of b)
    → encode (set (sort_items a)) ≡ encode (set (sort_items b))
unfolding sort_items
sorted_set a b p = encode_set (sort_items a) (sort_items b) (
    rw
      (
        items_of-frames_of (sort bytes_order sort_key (items_of a)),
        items_of-frames_of (sort bytes_order sort_key (items_of b)),
      )
      (keys-sort_perm bytes_order sort_key p))

all_items-map : (fs : Frames) → items_of (all_items fs) ≡ map all_containers (items_of fs)
unfolding items_of all_containers
all_items-map nil = refl
all_items-map (cons f fs) = ap (◌∷◌ (all_containers f)) (all_items-map fs)

unordered_items-map :
    (fs : Frames) → items_of (unordered_items fs) ≡ map unordered_containers (items_of fs)
unfolding items_of unordered_containers
unordered_items-map nil = refl
unordered_items-map (cons f fs) = ap (◌∷◌ (unordered_containers f)) (unordered_items-map fs)

by_contents-set : (c : Contents) (fs : Frames) → by_contents c (set fs) ≡ set fs
unfolding by_contents array_items array_pairs
by_contents-set of_pairs fs = refl
by_contents-set of_items fs = refl
by_contents-set ordered fs = refl

-- Two replies that list the items of a set in different orders have the same bytes once they are
-- canonical, in both modes that canonicalize and for every command.
pub canonicalize_reply_perm :
    (mode : CanonicalizationMode) (command : Option Bytes) (a b : Frames)
    → mode ≢ Evil.CanonicalizationMode.none
    → Permᴰ (items_of a) (items_of b)
    → encode (canonicalize_reply mode command (set a))
      ≡ encode (canonicalize_reply mode command (set b))
unfolding canonicalize_reply unordered_reply all_containers unordered_containers
canonicalize_reply_perm all command a b h p =
    sorted_set (all_items a) (all_items b)
      (rw (all_items-map a, all_items-map b) (Permᴰ.map all_containers p))
canonicalize_reply_perm unordered command a b h p =
    rw
      (
        by_contents-set (contents command) (sort_items (unordered_items a)),
        by_contents-set (contents command) (sort_items (unordered_items b)),
      )
      (sorted_set (unordered_items a) (unordered_items b)
        (rw (unordered_items-map a, unordered_items-map b) (Permᴰ.map unordered_containers p)))
canonicalize_reply_perm Evil.CanonicalizationMode.none command a b h p = absurd (h refl)
