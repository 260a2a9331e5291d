-- ===== src/Framing/Splice.antt =====
-- One text in the place of another, in the header of a frame within the bytes around it.
use evilresp.Base.Bytes.{Bytes}
use evilresp.Base.{ℕ, ◌≡◌, refl, sym, ◌∙◌, ap, [], ◌++◌, append-nil, append_assoc}
use evilresp.Resp.Encode.{push_line}

-- Behind the bytes `ahead`, `a` holds the frame whose encoding is `own` and starts with a header that
-- declares `old`; `b` is `a` with `new` in the place of this `old`.
pub record Splice (ahead own old new a b : Bytes) : Type 0 where
  pub prefix : ℕ
  pub body : Bytes
  pub rest : Bytes
  pub header : own ≡ push_line prefix old ++ body
  pub replaced : a ≡ ahead ++ (own ++ rest)
  pub result : b ≡ ahead ++ ((push_line prefix new ++ body) ++ rest)

module _ (own old new : Bytes) where
  pub Splice-left :
      (ahead p a b : Bytes)
      → Splice ahead own old new a b
      → Splice (p ++ ahead) own old new (p ++ a) (p ++ b)
  Splice-left ahead p a b s = record {
    prefix = s.prefix;
    body = s.body;
    rest = s.rest;
    header = s.header;
    replaced = ap (λ x. p ++ x) s.replaced ∙ sym (append_assoc p ahead _);
    result = ap (λ x. p ++ x) s.result ∙ sym (append_assoc p ahead _);
  }

  append_inner : (x y z q : Bytes) → (x ++ (y ++ z)) ++ q ≡ x ++ (y ++ (z ++ q))
  append_inner x y z q = append_assoc x (y ++ z) q ∙ ap (λ w. x ++ w) (append_assoc y z q)

  pub Splice-right :
      (ahead q a b : Bytes)
      → Splice ahead own old new a b
      → Splice ahead own old new (a ++ q) (b ++ q)
  Splice-right ahead q a b s = record {
    prefix = s.prefix;
    body = s.body;
    rest = s.rest ++ q;
    header = s.header;
    replaced = ap (λ x. x ++ q) s.replaced ∙ append_inner ahead own s.rest q;
    result =
        ap (λ x. x ++ q) s.result ∙ append_inner ahead (push_line s.prefix new ++ s.body) s.rest q;
  }

-- The line of a header, with what follows it.
pub line-Splice :
    (old new : Bytes) (prefix : ℕ) (body : Bytes)
    → Splice []
        (push_line prefix old ++ body)
        old
        new
        (push_line prefix old ++ body)
        (push_line prefix new ++ body)
line-Splice old new prefix body = record {
  prefix = prefix;
  body = body;
  rest = [];
  header = refl;
  replaced = sym (append-nil (push_line prefix old ++ body));
  result = sym (append-nil (push_line prefix new ++ body));
}

pub bare-Splice :
    (old new : Bytes) (prefix : ℕ)
    → Splice [] (push_line prefix old) old new (push_line prefix old) (push_line prefix new)
bare-Splice old new prefix = record {
  prefix = prefix;
  body = [];
  rest = [];
  header = sym (append-nil (push_line prefix old));
  replaced = sym (append-nil (push_line prefix old));
  result = sym (append-nil _) ∙ sym (append-nil (push_line prefix new ++ []));
}
