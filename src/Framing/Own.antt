-- ===== src/Framing/Own.antt =====
-- The header of the frame itself.
use evilresp.Base.Bytes.{Bytes, codes, crlf}
use evilresp.Base.Decimal.{decimal, decimal_int}
use evilresp.Base.Int.{ℤ}
use evilresp.Base.Options.{of_some}
use evilresp.Base.{ℕ, suc, ◌+◌, ◌≤◌, ◌<◌, ◌≡◌, refl, arith, ap, [], ◌++◌, none, some, length}
use evilresp.Framing.Indices.{
  Agree, encode_items-Agree, encode_pairs-Agree, replace_at-none, replace_at-some,
}
use evilresp.Framing.Visit.{size_items, size_pairs}
use evilresp.Framing.Splice.{Splice, line-Splice, bare-Splice}
use evilresp.Resp.Encode.{
  encode_into, encode_items, encode_pairs, no_header, replace_at, push_line, unwrap_or,
  declared_length,
}
use evilresp.Resp.Frame.{
  Frame, Frames, Pairs, simple_string, simple_error, integer, bulk_string, array, null_array, null,
  boolean, double, big_number, bulk_error, verbatim_string, map, set, push, attribute, inline,
  count, count_pairs,
}

module _ (new : Bytes) where
  -- Behind the target the callback is silent.
  pub silent : (t i j : ℕ) → t < i → Agree (replace_at t new) no_header i j
  silent t i j h k p q = replace_at-none t new k (λ e. omega (arith, e))

  pub early : (t i j : ℕ) → j ≤ t → Agree (replace_at t new) no_header i j
  early t i j h k p q = replace_at-none t new k (λ e. omega (arith, e))

  -- The line of a header whose body the callback leaves alone.
  headed-Splice :
      (prefix i : ℕ) (old body body' : Bytes)
      → body' ≡ body
      → Splice []
          (push_line prefix old ++ body)
          old
          new
          (push_line prefix old ++ body)
          (push_line prefix (unwrap_or (replace_at i new i) old) ++ body')
  headed-Splice prefix i old body body' e =
      rw (replace_at-some i new, e) (line-Splice old new prefix body)

  bare_headed-Splice :
      (prefix i : ℕ) (old : Bytes)
      → Splice []
          (push_line prefix old)
          old
          new
          (push_line prefix old)
          (push_line prefix (unwrap_or (replace_at i new i) old))
  bare_headed-Splice prefix i old = rw (replace_at-some i new) (bare-Splice old new prefix)

  items_behind :
      (items : Frames) (i : ℕ)
      → (encode_items (replace_at i new) items (suc i)).0 ≡ (encode_items no_header items (suc i)).0
  items_behind items i =
      ap (λ p. p.0)
        (encode_items-Agree (replace_at i new) no_header items (suc i)
          (silent i (suc i) (suc i + size_items items) (omega arith)))

  pairs_behind :
      (items : Pairs) (i : ℕ)
      → (encode_pairs (replace_at i new) items (suc i)).0 ≡ (encode_pairs no_header items (suc i)).0
  pairs_behind items i =
      ap (λ p. p.0)
        (encode_pairs-Agree (replace_at i new) no_header items (suc i)
          (silent i (suc i) (suc i + size_pairs items) (omega arith)))

  -- Encoded from index `i` on, the frame differs at the header with index `t`, behind `before`.
  abbrev pub At : Bytes → Bytes → Frame → ℕ → ℕ → ℤ → Type 0
  At before own f i t z =
      Splice before own (decimal_int z) new (encode_into no_header f i).0
        (encode_into (replace_at t new) f i).0

  abbrev OwnAt : Frame → ℕ → ℤ → Type 0
  OwnAt f i z = At [] (encode_into no_header f i).0 f i i z

  -- The header of the frame itself.
  pub own-Splice : (f : Frame) (i : ℕ) {z : ℤ} → declared_length f ≡ some z → OwnAt f i z
  unfolding encode_into declared_length decimal_int decimal
  own-Splice (bulk_string (some bytes)) i e =
      of_some (OwnAt (bulk_string (some bytes)) i) e
        (headed-Splice b'$' i (decimal (length bytes)) (bytes ++ crlf) _ refl)
  own-Splice (bulk_string none) i e =
      of_some (OwnAt (bulk_string none) i) e (bare_headed-Splice b'$' i (codes "-1"))
  own-Splice null_array i e =
      of_some (OwnAt null_array i) e (bare_headed-Splice b'*' i (codes "-1"))
  own-Splice (bulk_error bytes) i e =
      of_some (OwnAt (bulk_error bytes) i) e
        (headed-Splice b'!' i (decimal (length bytes)) (bytes ++ crlf) _ refl)
  own-Splice (verbatim_string bytes) i e =
      of_some (OwnAt (verbatim_string bytes) i) e
        (headed-Splice b'=' i (decimal (length bytes)) (bytes ++ crlf) _ refl)
  own-Splice (array items) i e =
      of_some (OwnAt (array items) i) e
        (headed-Splice b'*' i (decimal (count items)) _ _ (items_behind items i))
  own-Splice (set items) i e =
      of_some (OwnAt (set items) i) e
        (headed-Splice b'~' i (decimal (count items)) _ _ (items_behind items i))
  own-Splice (push items) i e =
      of_some (OwnAt (push items) i) e
        (headed-Splice b'>' i (decimal (count items)) _ _ (items_behind items i))
  own-Splice (map items) i e =
      of_some (OwnAt (map items) i) e
        (headed-Splice b'%' i (decimal (count_pairs items)) _ _ (pairs_behind items i))
  own-Splice (attribute items) i e =
      of_some (OwnAt (attribute items) i) e
        (headed-Splice b'|' i (decimal (count_pairs items)) _ _ (pairs_behind items i))
  own-Splice (simple_string value) i e = cc
  own-Splice (simple_error value) i e = cc
  own-Splice (integer value) i e = cc
  own-Splice null i e = cc
  own-Splice (boolean value) i e = cc
  own-Splice (double value) i e = cc
  own-Splice (big_number value) i e = cc
  own-Splice (inline parts) i e = cc
