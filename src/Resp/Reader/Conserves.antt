-- ===== src/Resp/Reader/Conserves.antt =====
-- The reader moves bytes from the stream to its buffer, within its bound, and always ends.
use evilresp.Base.Bytes.{Bytes}
use evilresp.Base.Decimal.{parse_i64}
use evilresp.Base.Utf8.{is_utf8}
use evilresp.Base.Int.{ℤ, pos, negsuc}
use evilresp.Base.{
  ℕ, zero, suc, ◌+◌, ◌-◌, ◌*◌, ◌≤◌, ◌<◌, ◌/◌, ◌^◌, ◌≡◌, ◌≢◌, refl, sym, ap, ◌∙◌, arith, inl, inr,
  Bool, true, false, List, [], ◌∷◌, ◌++◌, Option, none, some, append_assoc, length, length-append,
  not, take, drop, take-append-drop, length-take, length-drop, ltb, leb, ◌==◌, if◌then◌else◌,
  Bool-cases,
}
use evilresp.Resp.Parse.{
  Prefix, dollar, bang, equals, star, tilde, greater, percent, bar, prefix_of, max_frame_bytes,
  max_frame_depth,
}
use mathlib.Core.Path.{subst}
use evilresp.Resp.Reader.{
  out_of_fuel, unexpected_eof, invalid_data, stripped, len_of, ends_with_crlf, optional_body,
  optional_children, Read, ok, err, bind, Stream, read_until_lf, strip_crlf, read_line_raw,
  parse_len, read_body, push_children, read_rest, read_header, read_one, read_loop, read_raw_frame,
}

-- From `s` the reader reached `t`: the bytes in hand are the same, some of them moved, and the
-- buffer is within its bound if it was before.
pub record Moves (s t : Stream) : Type 0 where
  pub conserved : t.raw ++ t.input ≡ s.raw ++ s.input
  pub shrinks : length t.input ≤ length s.input
  pub bounded : length s.raw ≤ max_frame_bytes → length t.raw ≤ max_frame_bytes

read_until_lf-append :
    (limit : ℕ) (input : Bytes)
    → (read_until_lf limit input).0 ++ (read_until_lf limit input).1 ≡ input
unfolding read_until_lf
read_until_lf-append zero input = refl
read_until_lf-append (suc limit) [] = refl
read_until_lf-append (suc limit) (c ∷ cs) = ground (arith, read_until_lf-append limit cs)

read_until_lf-bound : (limit : ℕ) (input : Bytes) → length (read_until_lf limit input).0 ≤ limit
unfolding read_until_lf
read_until_lf-bound zero input = omega arith
read_until_lf-bound (suc limit) [] = omega arith
read_until_lf-bound (suc limit) (c ∷ cs) = ground (arith, read_until_lf-bound limit cs)

-- The step did not run out of fuel, and `P` holds of what it returned, if anything.
data Ensures {ℓ κ} {A : Type ℓ} (P : A → Type κ) : Read A → Type (ℓ ⊔ κ) where
  holds : {a : A} → P a → Ensures P (ok a)
  eof : Ensures P (err unexpected_eof)
  invalid : Ensures P (err invalid_data)

module _ {ℓ κ} {A : Type ℓ} {P : A → Type κ} where
  Ensures-ok : {value : A} {step : Read A} → step ≡ ok value → Ensures P step → P value
  Ensures-ok same (holds kept) = subst P (cc) kept
  Ensures-ok same eof = cc
  Ensures-ok same invalid = cc

  Ensures-out_of_fuel : {r : Read A} → Ensures P r → r ≢ err out_of_fuel
  Ensures-out_of_fuel (holds h) = λ e. cc
  Ensures-out_of_fuel eof = λ e. cc
  Ensures-out_of_fuel invalid = λ e. cc

  Ensures-if :
      (b : Bool) {x y : Read A}
      → Ensures P x
      → (b ≡ false → Ensures P y)
      → Ensures P (if b then x else y)
  Ensures-if true hx hy = hx
  Ensures-if false hx hy = hy refl

  Ensures-weaken {κ'} :
      {Q : A → Type κ'} {r : Read A} → Ensures P r → ((a : A) → P a → Q a) → Ensures Q r
  Ensures-weaken (holds {a} h) k = holds (k a h)
  Ensures-weaken eof k = eof
  Ensures-weaken invalid k = invalid

  Ensures-bind {ℓ' κ'} :
      {B : Type ℓ'} {Q : B → Type κ'} {step : Read A} {next : A → Read B}
      → Ensures P step
      → ((value : A) → P value → Ensures Q (next value))
      → Ensures Q (bind step next)
  Ensures-bind (holds {a} kept) k = k a kept
  Ensures-bind eof k = eof
  Ensures-bind invalid k = invalid

abbrev Reached : Stream → Bytes × Stream → Type 0
Reached s (line, t) = Moves s t

stripped-Ensures :
    (s t : Stream) (line : Bytes) (o : Option Bytes)
    → Moves s t
    → Ensures (Reached s) (stripped line t o)
unfolding stripped
stripped-Ensures s t [] o m = eof
stripped-Ensures s t (c ∷ cs) none m = invalid
stripped-Ensures s t (c ∷ cs) (some line) m = holds m

read_line_raw-Ensures : (s : Stream) → Ensures (Reached s) (read_line_raw s)
unfolding read_line_raw
read_line_raw-Ensures s =
    let limit = max_frame_bytes - length s.raw in
    let (line, rest) = read_until_lf limit s.input in
    stripped-Ensures s (record { raw = s.raw ++ line; input = rest }) line (strip_crlf line)
      (record {
        conserved =
            append_assoc s.raw line rest ∙ ap (◌++◌ s.raw) (read_until_lf-append limit s.input);
        shrinks =
            omega (arith, ap length (read_until_lf-append limit s.input), length-append line rest);
        bounded = λ h. omega (arith, length-append s.raw line, read_until_lf-bound limit s.input);
      })

len_of-Ensures : (nullable : Bool) (o : Option ℤ) → Ensures (λ n. Unit {0}) (len_of nullable o)
unfolding len_of
len_of-Ensures nullable none = invalid
len_of-Ensures nullable (some (pos n)) = holds tt
len_of-Ensures true (some (negsuc zero)) = holds tt
len_of-Ensures true (some (negsuc (suc n))) = invalid
len_of-Ensures false (some (negsuc n)) = invalid

parse_len-Ensures :
    (line : Bytes) (nullable : Bool) → Ensures (λ n. Unit {0}) (parse_len line nullable)
unfolding parse_len
parse_len-Ensures line nullable = elim (Bool-cases (is_utf8 line)) [
  | inl text ↦ rw text (len_of-Ensures nullable (parse_i64 line))
  | inr other ↦ rw other invalid
]

read_body-Ensures : (len : ℕ) (s : Stream) → Ensures (Moves s) (read_body len s)
unfolding read_body
read_body-Ensures len s = Ensures-if (leb (2 ^ 64) (len + 2)) invalid λ _.
    Ensures-if (ltb (max_frame_bytes - length s.raw) (len + 2)) invalid λ room.
      Ensures-if (not (length (take (len + 2) s.input) == (len + 2))) eof λ _.
        Ensures-if (not (ends_with_crlf (s.raw ++ take (len + 2) s.input))) invalid λ _.
          holds (record {
            conserved =
                append_assoc s.raw (take (len + 2) s.input) (drop (len + 2) s.input)
                ∙ ap (◌++◌ s.raw) (take-append-drop (len + 2) s.input);
            shrinks = omega (arith, length-drop (len + 2) s.input);
            bounded = λ h. ground (
              arith,
              length-append s.raw (take (len + 2) s.input),
              length-take (len + 2) s.input,
            );
          })

-- One level more at most.
abbrev Pushed : List ℕ → Stream → List ℕ × Stream → Type 0
Pushed pending s (pending', t) = Moves s t × (length pending' ≤ length pending + 1)

Moves-refl : (s : Stream) → Moves s s
Moves-refl s = record { conserved = refl; shrinks = omega arith; bounded = λ h. h }

Moves-trans : {s t u : Stream} → Moves s t → Moves t u → Moves s u
Moves-trans m n = record {
  conserved = n.conserved ∙ m.conserved;
  shrinks = omega (arith, m.shrinks, n.shrinks);
  bounded = λ h. n.bounded (m.bounded h);
}

push_children-Ensures :
    (factor len : ℕ) (pending : List ℕ) (s : Stream)
    → Ensures (Pushed pending s) (push_children factor len pending s)
unfolding push_children
push_children-Ensures factor len pending s = Ensures-if (leb (2 ^ 64) (len * factor)) invalid λ _.
    Ensures-if (ltb ((max_frame_bytes - length s.raw) / 3) (len * factor)) invalid λ _.
      Ensures-if (ltb 0 (len * factor)) (holds (Moves-refl s, omega arith))
        λ _. holds (Moves-refl s, omega arith)

optional_body-Ensures :
    (pending : List ℕ) (s : Stream) (o : Option ℕ)
    → Ensures (Pushed pending s) (optional_body pending s o)
unfolding optional_body
optional_body-Ensures pending s none = holds (Moves-refl s, omega arith)
optional_body-Ensures pending s (some len) =
    Ensures-bind (read_body-Ensures len s) λ t m. holds (m, omega arith)

optional_children-Ensures :
    (factor : ℕ) (pending : List ℕ) (s : Stream) (o : Option ℕ)
    → Ensures (Pushed pending s) (optional_children factor pending s o)
unfolding optional_children
optional_children-Ensures factor pending s none = holds (Moves-refl s, omega arith)
optional_children-Ensures factor pending s (some len) = push_children-Ensures factor len pending s

read_rest-Ensures :
    (k : Prefix) (line : Bytes) (pending : List ℕ) (s : Stream)
    → Ensures (Pushed pending s) (read_rest k line pending s)
unfolding read_rest
read_rest-Ensures dollar line pending s =
    Ensures-bind (parse_len-Ensures line true) λ o _. optional_body-Ensures pending s o
read_rest-Ensures bang line pending s =
    Ensures-bind (parse_len-Ensures line false) λ o _. optional_body-Ensures pending s o
read_rest-Ensures equals line pending s =
    Ensures-bind (parse_len-Ensures line false) λ o _. optional_body-Ensures pending s o
read_rest-Ensures star line pending s =
    Ensures-bind (parse_len-Ensures line true) λ o _. optional_children-Ensures 1 pending s o
read_rest-Ensures tilde line pending s =
    Ensures-bind (parse_len-Ensures line false) λ o _. optional_children-Ensures 1 pending s o
read_rest-Ensures greater line pending s =
    Ensures-bind (parse_len-Ensures line false) λ o _. optional_children-Ensures 1 pending s o
read_rest-Ensures percent line pending s =
    Ensures-bind (parse_len-Ensures line false) λ o _. optional_children-Ensures 2 pending s o
read_rest-Ensures bar line pending s =
    Ensures-bind (parse_len-Ensures line false) λ o _. optional_children-Ensures 2 pending s o
read_rest-Ensures _ line pending s = holds (Moves-refl s, omega arith)

-- A round that reads a frame takes a byte at least.
abbrev Advanced : List ℕ → Stream → List ℕ × Stream → Type 0
Advanced pending s (pending', t) =
    Moves s t × (length t.input < length s.input) × (length pending' ≤ length pending + 1)

take_prefix :
    (c : ℕ) (cs : Bytes) (s : Stream)
    → s.input ≡ c ∷ cs
    → (length s.raw == max_frame_bytes) ≡ false
    → Moves s (record { raw = s.raw ++ c ∷ []; input = cs })
take_prefix c cs s e room = record {
  conserved = append_assoc s.raw (c ∷ []) cs ∙ ap (◌++◌ s.raw) (sym e);
  shrinks = omega (arith, ap length e);
  bounded = λ h. ground (arith, length-append s.raw (c ∷ []));
}

read_header-Ensures :
    (pending : List ℕ) (s : Stream) (input : Bytes)
    → s.input ≡ input
    → (length s.raw == max_frame_bytes) ≡ false
    → Ensures (Advanced pending s) (read_header pending s input)
unfolding read_header
read_header-Ensures pending s [] e room = eof
read_header-Ensures pending s (c ∷ cs) e room =
    let first = take_prefix c cs s e room in
    Ensures-bind (read_line_raw-Ensures (record { raw = s.raw ++ c ∷ []; input = cs }))
      λ (line, t) m.
        Ensures-weaken (read_rest-Ensures (prefix_of c) line pending t) λ (pending', u) (n, levels).
          (
            Moves-trans first (Moves-trans m n),
            omega (arith, ap length e, m.shrinks, n.shrinks),
            levels,
          )

read_one-Ensures :
    (pending : List ℕ) (s : Stream) → Ensures (Advanced pending s) (read_one pending s)
unfolding read_one
read_one-Ensures pending s = Ensures-if (ltb max_frame_depth (length pending)) invalid λ _.
    Ensures-if (length s.raw == max_frame_bytes) invalid
      λ room. read_header-Ensures pending s s.input refl room

read_loop-Ensures :
    (fuel : ℕ) (pending : List ℕ) (s : Stream)
    → 2 * length s.input + length pending < fuel
    → Ensures (Moves s) (read_loop fuel pending s)
unfolding read_loop
read_loop-Ensures fuel [] s h = holds (Moves-refl s)
read_loop-Ensures zero (n ∷ pending) s h = absurd (omega arith)
read_loop-Ensures (suc fuel) (zero ∷ pending) s h = read_loop-Ensures fuel pending s (omega arith)
read_loop-Ensures (suc fuel) (suc n ∷ pending) s h =
    Ensures-bind (read_one-Ensures (n ∷ pending) s) λ (pending', t) (m, less, levels).
      Ensures-weaken (read_loop-Ensures fuel pending' t (omega (arith, less, levels)))
        λ u k. Moves-trans m k

abbrev at_start : Bytes → Stream
at_start input = record { raw = []; input = input }

read_raw_frame-Ensures : (input : Bytes) → Ensures (Moves (at_start input)) (read_raw_frame input)
unfolding read_raw_frame
read_raw_frame-Ensures input =
    read_loop-Ensures (2 * length input + 3) (1 ∷ []) (at_start input) (omega arith)

-- On every stream the reader ends: the fuel of the model is enough.
pub read_raw_frame-ne-out_of_fuel : (input : Bytes) → read_raw_frame input ≢ err out_of_fuel
read_raw_frame-ne-out_of_fuel input = Ensures-out_of_fuel (read_raw_frame-Ensures input)

-- Whatever the reader returns, the buffer followed by what is left of the stream is the stream,
-- and the buffer holds at most 64 MiB.
pub read_raw_frame_conserves :
    (input : Bytes) {s : Stream}
    → read_raw_frame input ≡ ok s
    → (s.raw ++ s.input ≡ input) × (length s.raw ≤ max_frame_bytes)
read_raw_frame_conserves input e =
    let m = Ensures-ok e (read_raw_frame-Ensures input) in (m.conserved, m.bounded (omega arith))
