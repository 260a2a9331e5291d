-- ===== src/Transaction/Queue.antt =====
-- The queue follows the exchanges.
use evilresp.Base.Bytes.{Bytes, codes, equal, equal_sound, to_ascii_uppercase}
use evilresp.Base.{
  ◌≡◌, refl, arith, ap, ◌∙◌, inl, inr, Bool, true, false, ◌&&◌, ◌||◌, List, [], ◌∷◌, ◌++◌,
  append-nil, append_assoc, Option, none, some, All, if◌then◌else◌, Bool-cases, &&-true,
}
use mathlib.Core.Path.{subst}
use evilresp.Transaction.{
  TransactionCommands, starts_with, begins, discards, is_result, completes, is_queued, push,
  observe_command, observe, Exchange, observe_all, accepted_commands, IsWithin,
}

within-push :
    (queue : Option (List Bytes)) (command reply : Bytes)
    → (begins command reply || discards command reply || completes command reply) ≡ false
    → (observe_command (record { queued = queue }) command reply).1
      ≡ record { queued = if is_queued reply then push command queue else queue }
unfolding observe_command
within-push queue command reply h = ground (arith, h)

observe_all-accepted_commands :
    (exchanges : List Exchange) (commands : List Bytes)
    → All IsWithin exchanges
    → (observe_all (record { queued = some commands }) exchanges).queued
      ≡ some (commands ++ accepted_commands exchanges)
unfolding observe_all accepted_commands observe push
observe_all-accepted_commands [] commands h = rw (append-nil commands) refl
observe_all-accepted_commands (([], reply) ∷ exchanges) commands (w, h) =
    observe_all-accepted_commands exchanges commands h
observe_all-accepted_commands ((word ∷ args, reply) ∷ exchanges) commands (w, h) =
    let command = to_ascii_uppercase word in
    let step = within-push (some commands) command reply w in
    let then_queue : TransactionCommands → Option (List Bytes) =
      λ q. (observe_all q exchanges).queued in
    elim (Bool-cases (is_queued reply)) [
      | inl queued ↦
          let taken : (observe_command (record { queued = some commands }) command reply).1
              ≡ record { queued = some (commands ++ command ∷ []) } =
            step ∙ rw queued refl in
          rw queued (
            ap then_queue taken
            ∙ observe_all-accepted_commands exchanges (commands ++ command ∷ []) h
            ∙ ap some (append_assoc commands (command ∷ []) (accepted_commands exchanges)))
      | inr refused ↦
          let left : (observe_command (record { queued = some commands }) command reply).1
              ≡ record { queued = some commands } =
            step ∙ rw refused refl in
          rw refused (ap then_queue left ∙ observe_all-accepted_commands exchanges commands h)
    ]

completing :
    (t : TransactionCommands) (word : Bytes) (args : List Bytes) (reply : Bytes)
    → completes (to_ascii_uppercase word) reply ≡ true
    → observe t (word ∷ args) reply ≡ (t.queued, record { queued = none })
unfolding observe observe_command completes begins discards equal
completing t word args reply h =
    let (exec, rest) = &&-true (equal (to_ascii_uppercase word) (codes "EXEC")) _ h in
    let same = equal_sound (to_ascii_uppercase word) (codes "EXEC") exec in
    let no_multi : equal (to_ascii_uppercase word) (codes "MULTI") ≡ false = rw same refl in
    let no_discard : equal (to_ascii_uppercase word) (codes "DISCARD") ≡ false = rw same refl in
    rw (no_multi, no_discard, exec, rest) refl

-- After a MULTI that was accepted and exchanges that neither begin, discard nor complete a
-- transaction, whatever came before, an EXEC that the upstream completes or aborts gives exactly the
-- commands that were answered with +QUEUED since that MULTI, in order, and no transaction is left.
pub observe-accepted_commands :
    (t : TransactionCommands) (multi exec : Bytes) (multi_args exec_args : List Bytes)
    (multi_reply exec_reply : Bytes) (exchanges : List Exchange)
    → begins (to_ascii_uppercase multi) multi_reply ≡ true
    → All IsWithin exchanges
    → completes (to_ascii_uppercase exec) exec_reply ≡ true
    → observe
        (observe_all t ((multi ∷ multi_args, multi_reply) ∷ exchanges))
        (exec ∷ exec_args)
        exec_reply
      ≡ (some (accepted_commands exchanges), record { queued = none })
unfolding observe_all observe observe_command
observe-accepted_commands t multi exec multi_args exec_args multi_reply exec_reply exchanges begun h
      ended =
    let start : (observe t (multi ∷ multi_args) multi_reply).1 ≡ record { queued = some [] } =
      rw begun refl in
    let queue : (observe_all t ((multi ∷ multi_args, multi_reply) ∷ exchanges)).queued
        ≡ some (accepted_commands exchanges) =
      ap (λ q. (observe_all q exchanges).queued) start
      ∙ observe_all-accepted_commands exchanges [] h in
    completing (observe_all t ((multi ∷ multi_args, multi_reply) ∷ exchanges)) exec exec_args
      exec_reply ended
    ∙ ap (λ q. (q, record { queued = none })) queue

observe_command_error :
    (t : TransactionCommands) (command rest : Bytes)
    → starts_with (b'-' ∷ rest) (codes "-EXECABORT ") ≡ false
    → observe_command t command (b'-' ∷ rest) ≡ (none, t)
unfolding observe_command begins discards completes is_result is_queued equal
observe_command_error t command rest k =
    let never : (a : Bool) → (a && false) ≡ false = λ a. ground arith in
    let no_multi = never (equal command (codes "MULTI")) in
    let no_discard = never (equal command (codes "DISCARD")) in
    let no_exec = never (equal command (codes "EXEC")) in rw (k, no_multi, no_discard, no_exec) refl

-- A reply that is an error other than EXECABORT leaves the queue as it is and completes nothing,
-- whatever the command.
pub observe_error :
    (t : TransactionCommands) (argv : List Bytes) (reply : Bytes)
    → starts_with reply (codes "-") ≡ true
    → starts_with reply (codes "-EXECABORT ") ≡ false
    → observe t argv reply ≡ (none, t)
unfolding observe starts_with
observe_error t [] reply h k = refl
observe_error t (word ∷ args) [] h k = cc
observe_error t (word ∷ args) (b ∷ reply) h k =
    let minus : b'-' ≡ b = ground (arith, h) in
    subst
      (λ x.
        starts_with (x ∷ reply) (codes "-EXECABORT ") ≡ false
        → observe_command t (to_ascii_uppercase word) (x ∷ reply) ≡ (none, t))
      minus (observe_command_error t (to_ascii_uppercase word) reply) k
