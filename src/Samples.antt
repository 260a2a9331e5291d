-- ===== src/Samples.antt =====
-- Concrete instances of the parameters, for the tests.
use evilresp.Base.Bytes.{Bytes}
use evilresp.Base.Decimal.{parse_unsigned}
use evilresp.Base.{
  ℕ, zero, suc, ◌-◌, ◌/◌, ◌^◌, ◌≤◌, ◌<◌, ◌≡◌, refl, sym, arith, ◌++◌, append-nil, append_assoc,
  none, length, take, min, max, ltb, leb, ◌==◌, true, false,
}
use evilresp.Base.Int.{pos}
use evilresp.Evil.{mutate, many}
use evilresp.Evil
use evilresp.Exec
use evilresp.Framing.Config
use evilresp.Framing.Config.{FramingConfig, LengthConfig, path}
use evilresp.Generator.Config.{default_generator}
use evilresp.Mutation.Config.{EvilConfig}
use evilresp.Mutation.{preserve, any}
use evilresp.Base.Bytes.{codes}
use evilresp.Base.{some}
use evilresp.Random.{Random}
use evilresp.Transport.Config.{default_transport}
use evilresp.Transport.Deliver.{
  Answer, accepted, failed, interrupted, Socket, Fingerprint, Fits, taken_of,
}
use evilresp.Transport.Settled.{Patience}

-- Probabilities in whole percent, a generator that counts its draws and always draws the least.
unfoldable pub least : Random
least = record {
  F64 = ℕ;
  parse_f64 = parse_unsigned (2 ^ 64);
  in_percent = λ p. leb p 100;
  hundred = 100;
  is_zero = λ p. p == 0;
  is_positive = λ p. ltb 0 p;
  less = ltb;
  halved = λ p n. p / 2 ^ n;
  sha256 = λ bytes. bytes;
  Gen = ℕ;
  from_seed = λ bytes. 0;
  gen_range = λ lo hi g. (lo, suc g);
  gen_range_inclusive = λ lo hi g. (lo, suc g);
  gen_percent = λ g. (0, suc g);
  gen_bool_percent = λ p g. (leb 1 p, suc g);
  gen_ratio = λ n d g. (true, suc g);
  gen_flag = λ g. (false, suc g);
  gen_i64 = λ g. (pos 7, suc g);
  gen_below = λ n g. (0, suc g);
  finite_text = λ bits. none;
  gen_i64-IsI64 = λ g. omega arith;
  gen_range_bounds = λ lo hi g h. (omega arith, omega (arith, h));
  gen_range_inclusive_bounds = λ lo hi g h. (omega arith, omega (arith, h));
}

-- Value mutation of every frame, and a longer length for `root.1`.
abbrev pub longer_length : FramingConfig least
longer_length = Config.FramingConfig.length record {
  probability = least.hundred;
  target = path (codes "root.1");
  kind = some Evil.LengthCorruption.longer;
}

abbrev pub evil_config : EvilConfig least
evil_config = record {
  seed = 7;
  mode = mutate;
  probability = least.hundred;
  topology_probability = least.hundred;
  canonicalization = Evil.CanonicalizationMode.none;
  strategy = preserve;
  mutation_count = many;
  depth = any;
  framing = longer_length;
  generator = default_generator;
  exec = record { action = Exec.ExecAction.off; probability = least.hundred };
  transport = default_transport least;
}

-- A socket that interrupts a number of writes and then takes three bytes at a time.
pub record Trickle : Type 0 where
  pub sent : Bytes
  pub interrupts : ℕ

unfoldable pub trickling : Bytes → Bytes → ℕ → Trickle × Answer
trickling sent buffer zero =
    let count = min 3 (length buffer) in
    (record { sent = sent ++ take count buffer; interrupts = 0 }, accepted count)
trickling sent buffer (suc n) = (record { sent = sent; interrupts = n }, failed interrupted)

pub trickling-Fits : (sent buffer : Bytes) (n : ℕ) → Fits (trickling sent buffer n).1 buffer
unfolding trickling
trickling-Fits sent buffer zero = omega arith
trickling-Fits sent buffer (suc n) = tt

pub trickling_sent :
    (sent buffer : Bytes) (n : ℕ)
    → (trickling sent buffer n).0.sent ≡ sent ++ taken_of (trickling sent buffer n).1 buffer
unfolding trickling
trickling_sent sent buffer zero = refl
trickling_sent sent buffer (suc n) = sym (append-nil sent)

unfoldable pub trickle : Socket
unfolding trickling
trickle = record {
  State = Trickle;
  received = λ s. s.sent;
  write = λ s buffer. trickling s.sent buffer s.interrupts;
  flush = λ s. (s, none);
  shutdown = λ s. (s, none);
  write-Fits = λ s buffer. trickling-Fits s.sent buffer s.interrupts;
  received-write = λ s buffer. trickling_sent s.sent buffer s.interrupts;
  received-flush = λ s. refl;
  received-shutdown = λ s. refl;
}

pub trickling-le : (sent buffer : Bytes) (n : ℕ) → (trickling sent buffer n).0.interrupts ≤ n
unfolding trickling
trickling-le sent buffer zero = omega arith
trickling-le sent buffer (suc n) = omega arith

pub trickling-lt :
    (sent buffer : Bytes) (n : ℕ)
    → (trickling sent buffer n).1 ≡ failed interrupted
    → (trickling sent buffer n).0.interrupts < n
unfolding trickling
trickling-lt sent buffer zero h = cc
trickling-lt sent buffer (suc n) h = omega arith

unfoldable pub trickle_patience : Patience trickle
unfolding trickle
trickle_patience = record {
  left = λ s. s.interrupts;
  left-write = λ s buffer. trickling-le s.sent buffer s.interrupts;
  left-interrupted = λ s buffer h. trickling-lt s.sent buffer s.interrupts h;
  left-flush = λ s. omega arith;
}

-- A fingerprint that is the bytes themselves.
unfoldable pub transcript : Fingerprint
transcript = record {
  State = Bytes;
  update = λ f a. f ++ a;
  update-nil = append-nil;
  update-append = append_assoc;
}

abbrev most_of : ℕ → ℕ → ℕ
most_of lo hi = max lo (hi - 1)

-- The same generator, but always with the greatest draw of a range.
unfoldable pub most : Random
unfolding least
most = record least {
  gen_range = λ lo hi g. (most_of lo hi, suc g);
  gen_range_inclusive = λ lo hi g. (hi, suc g);
  gen_range_bounds = λ lo hi g h. (omega arith, omega (arith, h));
  gen_range_inclusive_bounds = λ lo hi g h. (omega (arith, h), omega arith);
}
