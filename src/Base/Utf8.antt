-- ===== src/Base/Utf8.antt =====
-- The standard library's UTF-8 validation: `std::str::from_utf8` and `String::from_utf8_lossy`.
use evilresp.Base.Bytes.{Bytes}
use evilresp.Base.Lists.{all, get_or, length, drop, take}
use evilresp.Base.Tests.{ltb, leb, ◌==◌, if◌then◌else◌}
use Prim.Native.Nat.{ℕ, zero, suc, ◌≤◌}
use mathlib.Core.Bool.{Bool, true, false, ◌&&◌, not}
use mathlib.Core.List.{[], ◌∷◌, ◌++◌}
use mathlib.Core.Path.{◌≡◌, refl, ap, ◌∙◌}
use native.Mathlib.Omega.{arith}

within : ℕ → ℕ → ℕ → Bool
within lo hi c = leb lo c && leb c hi

-- The number of bytes that the first byte announces; 0 if it starts no character.
char_width : ℕ → ℕ
unfolding within
char_width b =
    if ltb b 0x80
    then 1
    else if within 0xc2 0xdf b
    then 2
    else if within 0xe0 0xef b
    then 3
    else if within 0xf0 0xf4 b
    then 4
    else 0

-- Whether `c` may be the second byte behind the first byte `b` of a character of three or four.
second_ok : ℕ → ℕ → Bool
unfolding within
second_ok b c =
    if b == 0xe0
    then within 0xa0 0xbf c
    else if b == 0xed
    then within 0x80 0x9f c
    else if b == 0xf0
    then within 0x90 0xbf c
    else if b == 0xf4
    then within 0x80 0x8f c
    else within 0x80 0xbf c

-- The character in front, if there is one, or the length of the prefix that can start none.
pub data Scan : Type 0 where
  valid : ℕ → Scan
  invalid : ℕ → Scan

-- Reading behind the end gives 0, which continues no character.
scan : Bytes → Scan
unfolding char_width second_ok within
scan [] = invalid 1
scan (b ∷ cs) =
    let second = get_or cs 0 0 in
    let third = get_or cs 1 0 in
    let fourth = get_or cs 2 0 in
    let w = char_width b in
    if w == 1
    then valid 1
    else if w == 2
    then (if within 0x80 0xbf second then valid 2 else invalid 1)
    else if w == 0
    then invalid 1
    else if not (second_ok b second)
    then invalid 1
    else if not (within 0x80 0xbf third)
    then invalid 2
    else if w == 3
    then valid 3
    else if within 0x80 0xbf fourth
    then valid 4
    else invalid 3

-- Each round drops a byte at least.
all_valid : ℕ → Bytes → Bool
all_valid f [] = true
all_valid zero (b ∷ cs) = false
all_valid (suc f) (b ∷ cs) = elim (scan (b ∷ cs)) [
  | valid n ↦ all_valid f (drop n (b ∷ cs))
  | invalid n ↦ false
]

-- `std::str::from_utf8(bytes).is_ok()`.
unfoldable pub is_utf8 : Bytes → Bool
unfolding all_valid scan
is_utf8 bytes = all_valid (length bytes) bytes

replacement : Bytes
replacement = 0xef ∷ 0xbf ∷ 0xbd ∷ []

lossy : ℕ → Bytes → Bytes
unfolding replacement
lossy f [] = []
lossy zero (b ∷ cs) = []
lossy (suc f) (b ∷ cs) = elim (scan (b ∷ cs)) [
  | valid n ↦ take n (b ∷ cs) ++ lossy f (drop n (b ∷ cs))
  | invalid n ↦ replacement ++ lossy f (drop n (b ∷ cs))
]

-- The bytes of `String::from_utf8_lossy(bytes)`: each invalid prefix becomes U+FFFD.
unfoldable pub from_utf8_lossy : Bytes → Bytes
unfolding lossy scan
from_utf8_lossy bytes = lossy (length bytes) bytes

e_acute : is_utf8 (b'a' ∷ 0xc3 ∷ 0xa9 ∷ []) ≡ true
unfolding is_utf8
e_acute = refl

surrogate_lossy :
    from_utf8_lossy (0xed ∷ 0xa0 ∷ b'a' ∷ 0xe2 ∷ 0x82 ∷ [])
    ≡ replacement ++ (replacement ++ (b'a' ∷ replacement))
unfolding from_utf8_lossy
surrogate_lossy = refl

scan_ascii : (b : ℕ) (cs : Bytes) → ltb b 0x80 ≡ true → scan (b ∷ cs) ≡ valid 1
unfolding scan
scan_ascii b cs h = rw (h, char_width)

all_valid_ascii :
    (f : ℕ) (s : Bytes) → length s ≤ f → all (λ c. ltb c 0x80) s ≡ true → all_valid f s ≡ true
unfolding all_valid
all_valid_ascii zero [] h a = refl
all_valid_ascii zero (b ∷ cs) h a = absurd (omega arith)
all_valid_ascii (suc f) [] h a = refl
all_valid_ascii (suc f) (b ∷ cs) h a =
    rw (scan_ascii b cs (ground arith), all_valid)
      (all_valid_ascii f cs (omega arith) (ground arith))

-- ASCII text is UTF-8.
pub is_utf8_ascii : (s : Bytes) → all (λ c. ltb c 0x80) s ≡ true → is_utf8 s ≡ true
unfolding is_utf8
is_utf8_ascii s = all_valid_ascii (length s) s (omega arith)

take-drop : (n : ℕ) (s : Bytes) → take n s ++ drop n s ≡ s
take-drop zero s = refl
take-drop (suc n) [] = refl
take-drop (suc n) (b ∷ cs) = ap (λ r. b ∷ r) (take-drop n cs)

lossy-scan :
    (f b : ℕ) (cs : Bytes) (found : Scan)
    → ((s : Bytes) → all_valid f s ≡ true → lossy f s ≡ s)
    → scan (b ∷ cs) ≡ found
    → all_valid (suc f) (b ∷ cs) ≡ true
    → lossy (suc f) (b ∷ cs) ≡ b ∷ cs
unfolding all_valid lossy
lossy-scan f b cs (valid n) rest e h =
    rw (e, lossy)
      (ap (λ r. take n (b ∷ cs) ++ r) (rest (drop n (b ∷ cs)) (rw (e, all_valid) at h))
        ∙ take-drop n (b ∷ cs))
lossy-scan f b cs (invalid n) rest e h = cc (rw (e, all_valid) at h)

lossy-all_valid : (f : ℕ) (s : Bytes) → all_valid f s ≡ true → lossy f s ≡ s
unfolding all_valid lossy
lossy-all_valid f [] h = refl
lossy-all_valid zero (b ∷ cs) h = cc
lossy-all_valid (suc f) (b ∷ cs) h =
    lossy-scan f b cs (scan (b ∷ cs)) (λ s. lossy-all_valid f s) refl h

-- Text that is UTF-8 is kept as it is.
pub from_utf8_lossy-is_utf8 : (s : Bytes) → is_utf8 s ≡ true → from_utf8_lossy s ≡ s
unfolding from_utf8_lossy is_utf8
from_utf8_lossy-is_utf8 s h = lossy-all_valid (length s) s h
