-- ===== src/Transaction/Tests.antt =====
-- Runs of the transaction tracker.
use evilresp.Base.Bytes.{codes, equal, to_ascii_uppercase}
use evilresp.Base.{◌≡◌, refl, List, [], ◌∷◌, none, some}
use evilresp.Transaction.{
  TransactionCommands, begins, discards, completes, is_queued, is_result, starts_with, observe,
  Exchange, observe_all, accepted_commands,
}
use evilresp.Transaction.Queue.{observe-accepted_commands, observe_error}

abbrev idle : TransactionCommands
idle = record { queued = none }

-- A nested MULTI is refused, a command is refused, two are queued.
abbrev inside : List Exchange
inside =
    (codes "multi" ∷ [], codes "-ERR MULTI calls can not be nested\r\n")
    ∷ (codes "smembers" ∷ codes "s" ∷ [], codes "+QUEUED\r\n")
    ∷ (codes "GET" ∷ [], codes "-ERR wrong number of arguments\r\n")
    ∷ (codes "HGETALL" ∷ codes "h" ∷ [], codes "+QUEUED\r\n")
    ∷ []

inside-accepted_commands : accepted_commands inside ≡ codes "SMEMBERS" ∷ codes "HGETALL" ∷ []
unfolding accepted_commands is_queued equal to_ascii_uppercase
inside-accepted_commands = refl

observe-accepted_commands_example :
    observe
      (observe_all idle ((codes "MULTI" ∷ [], codes "+OK\r\n") ∷ inside))
      (codes "exec" ∷ [])
      (codes "*2\r\n")
    ≡ (some (accepted_commands inside), record { queued = none })
unfolding begins discards completes is_result equal to_ascii_uppercase
observe-accepted_commands_example =
    observe-accepted_commands idle (codes "MULTI") (codes "exec") [] [] (codes "+OK\r\n")
      (codes "*2\r\n") inside refl (refl, (refl, (refl, (refl, tt)))) refl

observe_error_example :
    observe (record { queued = some (codes "GET" ∷ []) }) (codes "EXEC" ∷ []) (codes "-ERR no\r\n")
    ≡ (none, record { queued = some (codes "GET" ∷ []) })
unfolding starts_with
observe_error_example =
    observe_error (record { queued = some (codes "GET" ∷ []) }) (codes "EXEC" ∷ [])
      (codes "-ERR no\r\n") refl refl
