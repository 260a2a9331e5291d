-- ===== src/Resp/Lines.antt =====
-- The line readers on lines that the encoder writes.
use evilresp.Base.Bytes.{Bytes, codes, crlf, cr, lf}
use evilresp.Base.Decimal.{
  decimal, decimal_int, AreDigits, last, more, decimal-AreDigits, parse_i64-decimal_int,
}
use evilresp.Base.Int.{ℤ, pos, negsuc, IsI64}
use evilresp.Base.Utf8.{is_utf8, is_utf8_ascii}
use evilresp.Base.{
  ℕ, suc, ◌^◌, ◌<◌, ◌≡◌, refl, arith, Bool, true, false, ◌&&◌, ◌||◌, [], ◌∷◌, ◌++◌, length,
  length-append, append_assoc, take-append, drop-append, ltb, ◌==◌, all,
}
use evilresp.Resp.Result.{ok}
use evilresp.Resp.Parse.{take_line, take_utf8_line, take_i64_line, take_blob}

-- CR LF stands somewhere in the text.
unfoldable pub has_crlf : Bytes → Bool
has_crlf [] = false
has_crlf (c ∷ []) = false
has_crlf (c ∷ d ∷ rest) = (c == cr && d == lf) || has_crlf (d ∷ rest)

pub take_line-crlf :
    (s rest : Bytes) → has_crlf s ≡ false → take_line ((s ++ crlf) ++ rest) ≡ ok (s, rest)
unfolding has_crlf take_line
take_line-crlf [] rest h = refl
take_line-crlf (c ∷ []) rest h = ground arith
take_line-crlf (c ∷ d ∷ s) rest h = ground (arith, take_line-crlf (d ∷ s) rest)

pub take_utf8_line-crlf :
    (s rest : Bytes)
    → is_utf8 s ≡ true
    → has_crlf s ≡ false
    → take_utf8_line ((s ++ crlf) ++ rest) ≡ ok (s, rest)
unfolding take_utf8_line
take_utf8_line-crlf s rest u h = rw (take_line-crlf s rest h, u)

abbrev pub is_plain : ℕ → Bool
is_plain c = ltb c 0x80 && ltb lf c && ltb cr c

plain-has_crlf : (s : Bytes) → all is_plain s ≡ true → has_crlf s ≡ false
unfolding has_crlf
plain-has_crlf [] h = refl
plain-has_crlf (c ∷ []) h = refl
plain-has_crlf (c ∷ d ∷ s) h = ground (arith, plain-has_crlf (d ∷ s))

pub plain-ascii : (s : Bytes) → all is_plain s ≡ true → all (λ c. ltb c 0x80) s ≡ true
plain-ascii [] h = refl
plain-ascii (c ∷ s) h = ground (arith, plain-ascii s)

digits-plain : {s : Bytes} → AreDigits s → all is_plain s ≡ true
digits-plain (last h) = ground arith
digits-plain (more h t) = ground (arith, digits-plain t)

pub decimal_int-plain : (z : ℤ) → all is_plain (decimal_int z) ≡ true
unfolding decimal_int
decimal_int-plain (pos n) = digits-plain (decimal-AreDigits n)
decimal_int-plain (negsuc n) = digits-plain (decimal-AreDigits (suc n))

pub take_utf8_line-plain :
    (s rest : Bytes) → all is_plain s ≡ true → take_utf8_line ((s ++ crlf) ++ rest) ≡ ok (s, rest)
take_utf8_line-plain s rest h =
    take_utf8_line-crlf s rest (is_utf8_ascii s (plain-ascii s h)) (plain-has_crlf s h)

pub take_i64_line-crlf :
    (z : ℤ) (rest : Bytes)
    → IsI64 z
    → take_i64_line ((decimal_int z ++ crlf) ++ rest) ≡ ok (z, rest)
unfolding take_i64_line
take_i64_line-crlf z rest h =
    rw (take_utf8_line-plain (decimal_int z) rest (decimal_int-plain z))
      (rw (parse_i64-decimal_int z h))

pub take_i64_line-decimal :
    (n : ℕ) (rest : Bytes)
    → n < 2 ^ 63
    → take_i64_line ((decimal n ++ crlf) ++ rest) ≡ ok (pos n, rest)
take_i64_line-decimal n rest h = unfold decimal_int in take_i64_line-crlf (pos n) rest h

pub take_i64_line_none :
    (rest : Bytes) → take_i64_line ((codes "-1" ++ crlf) ++ rest) ≡ ok (negsuc 0, rest)
take_i64_line_none rest =
    unfold decimal_int decimal in take_i64_line-crlf (negsuc 0) rest (omega arith)

pub take_blob-crlf :
    (b rest : Bytes) → take_blob (pos (length b)) ((b ++ crlf) ++ rest) ≡ ok (b, rest)
unfolding take_blob
take_blob-crlf b rest = rw append_assoc (
    rw (take-append b (crlf ++ rest), drop-append b (crlf ++ rest))
      (ground (arith, length-append b (crlf ++ rest))))
