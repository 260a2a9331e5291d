-- ===== src/Evil/Replied.antt =====
-- What `mutate_command_reply` answers with.
use evilresp.Base.Bytes.{Bytes}
use evilresp.Base.{ℕ, ◌≡◌, ◌≢◌, refl, inl, inr, not, ◌||◌, List, [], Option, none, some, Bool-cases}
use evilresp.Evil.Replies.{is_exec, unwrap_or_reply, mutate_reply, mutate_command_reply}
use evilresp.Evil.{EvilMode, MutatedReply}
use evilresp.Exec
use evilresp.Exec.{ExecConfig, is_editing, is_off, mutate_frame, report}
use evilresp.Exec.Report.{IsReported, mutate_reply-IsReported}
use evilresp.Mutation.Answers.{mutate-unreported}
use evilresp.Mutation.Config.{EvilConfig}
use evilresp.Random.{Random, rng_for}
use evilresp.Resp.Encode.{encode}
use evilresp.Resp.Frame.{Frame, array}
use evilresp.Resp.Same.{items_of}

reported_some : (items : List Frame) (m : MutatedReply) → IsReported items m → m.mutations ≢ []
reported_some items m s e = cc (s.reported, e)

module _ (r : Random) (mode : EvilMode) (c : ExecConfig r) (seed index : ℕ)
    (command upstream : Bytes) where
  -- An edit of an EXEC result is always reported.
  edited_some :
      (f : Frame) {m : MutatedReply}
      → Exec.mutate_reply r mode c seed index command upstream f ≡ some m
      → m.mutations ≢ []
  unfolding Exec.mutate_reply mutate_frame
  edited_some (array items) h =
      reported_some (items_of items) _
        (mutate_reply-IsReported r mode c seed index command upstream items h)
  edited_some f h =
      elim (Bool-cases (not (is_editing mode) || is_off c.action || r.is_zero c.probability)) [
        | inl skipped ↦ cc (rw skipped at h)
        | inr active ↦ cc (rw active at h)
      ]

module _ (r : Random) (c : EvilConfig r) (index : ℕ) (command_hash upstream_hash : Bytes)
    (f : Frame) where
  edited_or :
      (o : Option MutatedReply) (other : MutatedReply)
      → ((m : MutatedReply) → o ≡ some m → m.mutations ≢ [])
      → (other.mutations ≡ [] → other.bytes ≡ encode f)
      → (unwrap_or_reply o other).mutations ≡ []
      → (unwrap_or_reply o other).bytes ≡ encode f
  edited_or none other h k e = k e
  edited_or (some m) other h k e = absurd (h m refl e)

  -- Whatever the command, a reply with no mutation reported has the bytes of the encoded upstream
  -- frame, whether the result of an EXEC was to be edited or values and lengths were to be mutated.
  pub mutate_command_reply-unreported :
      (command : Option Bytes)
      → (mutate_command_reply r c index command command_hash upstream_hash f).mutations ≡ []
      → (mutate_command_reply r c index command command_hash upstream_hash f).bytes ≡ encode f
  unfolding mutate_command_reply mutate_reply
  mutate_command_reply-unreported command =
      let plain = mutate-unreported r c f (rng_for r c.seed index command_hash upstream_hash) in
      elim (Bool-cases (is_exec command)) [
        | inl exec ↦ rw exec (
            edited_or (Exec.mutate_reply r c.mode c.exec c.seed index command_hash upstream_hash f)
              _ (λ m h. edited_some r c.mode c.exec c.seed index command_hash upstream_hash f h)
              plain)
        | inr other ↦ rw other plain
      ]
