-- ===== src/Evil/Replies.antt =====
-- src/evil.rs: `random_reply`, `mutate_reply` and `mutate_command_reply`.
use evilresp.Base.Bytes.{Bytes, codes, eq_ignore_ascii_case}
use evilresp.Base.{ℕ, Bool, false, [], ◌∷◌, Option, none, some, if◌then◌else◌}
use evilresp.Evil.{MutatedReply, random_frame, value_report}
use evilresp.Exec
use evilresp.Generator.Frames.{draw_frame}
use evilresp.Mutation.Config.{EvilConfig}
use evilresp.Mutation.Whole
use evilresp.Random.{Random, rng_for}
use evilresp.Resp.Encode.{encode}
use evilresp.Resp.Frame.{Frame}

-- `is_some_and`.
abbrev pub is_exec : Option Bytes → Bool
is_exec none = false
is_exec (some name) = eq_ignore_ascii_case name (codes "EXEC")

abbrev pub unwrap_or_reply : Option MutatedReply → MutatedReply → MutatedReply
unwrap_or_reply none other = other
unwrap_or_reply (some reply) other = reply

module _ (r : Random) where
  unfoldable pub random_reply : EvilConfig r → ℕ → Bytes → MutatedReply
  random_reply c command_index command_hash =
      let (frame, g) = draw_frame r c.generator (rng_for r c.seed command_index command_hash []) in
      record { bytes = encode frame; mutations = value_report (codes "root") random_frame ∷ [] }

  unfoldable pub mutate_reply : EvilConfig r → ℕ → Bytes → Bytes → Frame → MutatedReply
  mutate_reply c command_index command_hash upstream_hash upstream =
      Whole.mutate r c upstream (rng_for r c.seed command_index command_hash upstream_hash)

  -- The edit of the result of an EXEC goes first.
  unfoldable pub mutate_command_reply :
      EvilConfig r → ℕ → Option Bytes → Bytes → Bytes → Frame → MutatedReply
  unfolding mutate_reply
  mutate_command_reply c command_index command command_hash upstream_hash upstream =
      unwrap_or_reply
        (if is_exec command
          then Exec.mutate_reply r c.mode c.exec c.seed command_index command_hash upstream_hash
              upstream
          else none)
        (mutate_reply c command_index command_hash upstream_hash upstream)
