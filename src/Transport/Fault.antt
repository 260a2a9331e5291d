-- ===== src/Transport/Fault.antt =====
-- src/connection_fault.rs: the configuration of a connection fault, and the plan drawn from it.
use evilresp.Base.Bytes.{Bytes, codes, equal, to_ascii_uppercase, is_ascii_digit}
use evilresp.Base.Decimal.{parse_unsigned}
use evilresp.Base.{
  ℕ, ◌^◌, ◌≤◌, ◌≡◌, arith, Bool, true, false, ◌&&◌, ◌||◌, not, [], ◌∷◌, ◌++◌, Option, none, some,
  inl, inr, Bool-cases, all, ltb, leb, if◌then◌else◌,
}
use evilresp.Random.{Random, rng_for}

pub data FaultAction : Type 0 where
  off close reset stall : FaultAction

pub data FaultPoint : Type 0 where
  before after reply random : FaultPoint
  bytes : ℕ → FaultPoint

pub record FaultConfig : Type 0 where
  pub action : FaultAction
  pub point : FaultPoint
  pub duration_ms : ℕ

abbrev pub default_fault : FaultConfig
default_fault = record { action = off; point = after; duration_ms = 10_000 }

-- The message of `AppError::EvilConfig` is not modelled: a refusal is `none`.
unfoldable pub decimal : Bytes → Option ℕ
decimal [] = none
decimal (c ∷ cs) = if all is_ascii_digit (c ∷ cs) then parse_unsigned (2 ^ 64) (c ∷ cs) else none

unfoldable pub set_action : FaultConfig → Bytes → Option FaultConfig
set_action c value =
    let word = to_ascii_uppercase value in
    if equal word (codes "OFF")
    then some (record c { action = off })
    else if equal word (codes "CLOSE")
    then some (record c { action = close })
    else if equal word (codes "RESET")
    then some (record c { action = reset })
    else if equal word (codes "STALL")
    then some (record c { action = stall })
    else none

at_bytes : FaultConfig → Option ℕ → Option FaultConfig
at_bytes c none = none
at_bytes c (some n) = some (record c { point = bytes n })

unfoldable pub set_point : FaultConfig → Bytes → Option FaultConfig
unfolding decimal at_bytes
set_point c value =
    let word = to_ascii_uppercase value in
    if equal word (codes "BEFORE")
    then some (record c { point = before })
    else if equal word (codes "AFTER")
    then some (record c { point = after })
    else if equal word (codes "REPLY")
    then some (record c { point = reply })
    else if equal word (codes "RANDOM")
    then some (record c { point = random })
    else at_bytes c (decimal value)

unfoldable pub lasting : FaultConfig → Option ℕ → Option FaultConfig
lasting c none = none
lasting c (some ms) =
    if not (leb 1 ms && leb ms 3_600_000) then none else some (record c { duration_ms = ms })

unfoldable pub set_duration : FaultConfig → Bytes → Option FaultConfig
unfolding decimal lasting
set_duration c value = lasting c (decimal value)

pub record ConnectionFaultPlan : Type 0 where
  pub action : FaultAction
  pub point : FaultPoint
  pub after_bytes : ℕ
  pub duration_ms : Option ℕ

abbrev pub is_off : FaultAction → Bool
is_off off = true
is_off _ = false

abbrev pub is_before : FaultPoint → Bool
is_before before = true
is_before _ = false

-- The duration goes into the plan of a stall only.
stall_ms : FaultAction → ℕ → Option ℕ
stall_ms stall ms = some ms
stall_ms _ ms = none

module _ (r : Random) where
  open r use {F64, is_zero, Gen, gen_bool_percent, gen_range}

  -- The offset of the fault; `none` for an offset behind the end of the reply.
  unfoldable pub fault_offset : FaultPoint → ℕ → Gen → Option ℕ
  fault_offset before len g = some 0
  fault_offset after len g = some 0
  fault_offset reply len g = some len
  fault_offset random len g = some (if ltb 0 len then (gen_range 0 len g).0 else 0)
  fault_offset (bytes n) len g = if leb n len then some n else none

  planned : FaultConfig → Option ℕ → Option ConnectionFaultPlan
  unfolding stall_ms
  planned c none = none
  planned c (some n) = some (record {
    action = c.action;
    point = c.point;
    after_bytes = n;
    duration_ms = stall_ms c.action c.duration_ms;
  })

  drawn : FaultConfig → ℕ → Bool × Gen → Option ConnectionFaultPlan
  unfolding planned
  drawn c len (true, g) = planned c (fault_offset c.point len g)
  drawn c len (false, g) = none

  -- `FaultConfig::plan`.
  unfoldable pub plan_fault : FaultConfig → F64 → ℕ → ℕ → Bytes → ℕ → Option ConnectionFaultPlan
  unfolding drawn fault_offset
  plan_fault c probability seed command_index command_hash response_len =
      if is_off c.action || is_zero probability
      then none
      else drawn c response_len (
          gen_bool_percent probability
            (rng_for r seed command_index (codes "connection-fault:v1:" ++ command_hash) []))

  fault_offset-le :
      (p : FaultPoint) (len : ℕ) (g : Gen) {n : ℕ} → fault_offset p len g ≡ some n → n ≤ len
  unfolding fault_offset
  fault_offset-le before len g h = ground arith
  fault_offset-le after len g h = ground arith
  fault_offset-le reply len g h = ground arith
  fault_offset-le random len g h = ground (arith, r.gen_range_bounds 0 len g)
  fault_offset-le (bytes n) len g h = ground arith

  planned-eq-some :
      (c : FaultConfig) (o : Option ℕ) {p : ConnectionFaultPlan}
      → planned c o ≡ some p
      → o ≡ some p.after_bytes
  unfolding planned
  planned-eq-some c none h = cc
  planned-eq-some c (some n) h = ground arith

  drawn-le :
      (c : FaultConfig) (len : ℕ) (d : Bool × Gen) {p : ConnectionFaultPlan}
      → drawn c len d ≡ some p
      → p.after_bytes ≤ len
  unfolding drawn
  drawn-le c len (true, g) h =
      fault_offset-le c.point len g (planned-eq-some c (fault_offset c.point len g) h)
  drawn-le c len (false, g) h = cc

  -- A planned fault lies within the reply.
  pub plan_fault-le :
      (c : FaultConfig) (probability : F64) (seed index : ℕ) (hash : Bytes) (len : ℕ)
      {p : ConnectionFaultPlan}
      → plan_fault c probability seed index hash len ≡ some p
      → p.after_bytes ≤ len
  unfolding plan_fault
  plan_fault-le c probability seed index hash len h =
      elim (Bool-cases (is_off c.action || is_zero probability)) [
        | inl skipped ↦ cc (rw skipped at h)
        | inr chosen ↦ drawn-le c len _ (rw chosen at h)
      ]
