-- ===== src/Transaction.antt =====
-- src/transaction.rs: which commands an EXEC reply belongs to.
mod Queue
mod Tests
use evilresp.Base.Bytes.{Bytes, codes, equal, to_ascii_uppercase}
use evilresp.Base.{
  ◌≡◌, refl, arith, ap, inl, inr, Bool, true, false, ◌&&◌, ◌||◌, List, [], ◌∷◌, ◌++◌, append-nil,
  append_assoc, Option, none, some, All, ◌==◌, if◌then◌else◌, Bool-cases, &&-true,
}

-- `TransactionCommands`: the commands that were queued since MULTI, if one is open.
pub record TransactionCommands : Type 0 where
  pub queued : Option (List Bytes)

unfoldable pub starts_with : Bytes → Bytes → Bool
starts_with bytes [] = true
starts_with [] (p ∷ prefix) = false
starts_with (b ∷ bytes) (p ∷ prefix) = b == p && starts_with bytes prefix

unfoldable pub begins : Bytes → Bytes → Bool
begins command reply = equal command (codes "MULTI") && equal reply (codes "+OK\r\n")

unfoldable pub discards : Bytes → Bytes → Bool
discards command reply = equal command (codes "DISCARD") && equal reply (codes "+OK\r\n")

-- `matches!(reply.first(), Some(b'*' | b'_'))`.
unfoldable pub is_result : Bytes → Bool
is_result [] = false
is_result (b ∷ bytes) = b == b'*' || b == b'_'

unfoldable pub completes : Bytes → Bytes → Bool
unfolding is_result starts_with
completes command reply =
    equal command (codes "EXEC") && (is_result reply || starts_with reply (codes "-EXECABORT "))

unfoldable pub is_queued : Bytes → Bool
is_queued reply = equal reply (codes "+QUEUED\r\n")

unfoldable pub push : Bytes → Option (List Bytes) → Option (List Bytes)
push command none = none
push command (some commands) = some (commands ++ command ∷ [])

unfoldable pub observe_command :
    TransactionCommands → Bytes → Bytes → Option (List Bytes) × TransactionCommands
unfolding begins discards completes is_queued push
observe_command t command reply =
    if begins command reply
    then (none, record { queued = some [] })
    else if discards command reply
    then (none, record { queued = none })
    else if completes command reply
    then (t.queued, record { queued = none })
    else if is_queued reply
    then (none, record { queued = push command t.queued })
    else (none, t)

-- `observe`: what it returns beside the new state.
unfoldable pub observe :
    TransactionCommands → List Bytes → Bytes → Option (List Bytes) × TransactionCommands
unfolding observe_command
observe t [] reply = (none, t)
observe t (word ∷ args) reply = observe_command t (to_ascii_uppercase word) reply

-- A command line with the reply to it.
abbrev pub Exchange : Type 0
Exchange = List Bytes × Bytes

unfoldable pub observe_all : TransactionCommands → List Exchange → TransactionCommands
observe_all t [] = t
observe_all t ((argv, reply) ∷ exchanges) = observe_all (observe t argv reply).1 exchanges

-- The commands of the exchanges that were answered with +QUEUED, in order.
unfoldable pub accepted_commands : List Exchange → List Bytes
accepted_commands [] = []
accepted_commands (([], reply) ∷ exchanges) = accepted_commands exchanges
accepted_commands ((word ∷ args, reply) ∷ exchanges) =
    let rest = accepted_commands exchanges in
    if is_queued reply then to_ascii_uppercase word ∷ rest else rest

-- An exchange that neither begins nor discards nor completes a transaction.
abbrev pub IsWithin : Exchange → Type 0
IsWithin ([], reply) = Unit
IsWithin (word ∷ args, reply) =
    (begins (to_ascii_uppercase word) reply
      || discards (to_ascii_uppercase word) reply
      || completes (to_ascii_uppercase word) reply)
    ≡ false
