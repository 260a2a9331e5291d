-- ===== src/Evil.antt =====
-- src/evil.rs: the modes, and what a mutation reports.
pub mod Canonical
mod Sorted
mod Idempotent
mod Shuffled
pub mod Replies
mod Replied
mod Tests
use evilresp.Base.Bytes.{Bytes}
use evilresp.Base.{ℕ, List, Option}

pub data EvilMode : Type 0 where
  off random mutate overflow : EvilMode

pub data CanonicalizationMode : Type 0 where
  all unordered none : CanonicalizationMode

pub data MutationCount : Type 0 where
  one many : MutationCount

pub data LengthCorruption : Type 0 where
  shorter longer negative boundary overflow : LengthCorruption

pub record LengthMutation : Type 0 where
  pub kind : LengthCorruption
  pub original : Bytes
  pub replacement : Bytes

pub record ExecMutation : Type 0 where
  pub original_count : ℕ
  pub replacement_count : ℕ
  pub index : ℕ
  pub other_index : Option ℕ

pub data MutationKind : Type 0 where
  exec_remove exec_duplicate exec_swap random_frame random_value wrong_type wrong_length :
      MutationKind
  overflow_value topology_fake_redirection topology_wrong_redirection_kind : MutationKind
  topology_wrong_slot topology_wrong_server topology_wild_slot : MutationKind
  topology_redirect_before topology_redirect_after : MutationKind

pub record AppliedMutation : Type 0 where
  pub path : Bytes
  pub kind : MutationKind
  pub length : Option LengthMutation
  pub exec : Option ExecMutation

pub record MutatedReply : Type 0 where
  pub bytes : Bytes
  pub mutations : List AppliedMutation

-- The report of a mutation of a value or a frame.
abbrev pub value_report : Bytes → MutationKind → AppliedMutation
value_report path kind = record {
  path = path;
  kind = kind;
  length = Option.none;
  exec = Option.none;
}
