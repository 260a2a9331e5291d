-- ===== src/Mutation/Config.antt =====
-- src/evil.rs: `EvilConfig`, and the methods of `MutationDepth`.
use evilresp.Base.{ℕ, ◌-◌, min}
use evilresp.Evil.{EvilMode, CanonicalizationMode, MutationCount}
use evilresp.Exec.{ExecConfig}
use evilresp.Framing.Config.{FramingConfig}
use evilresp.Generator.Config.{GeneratorConfig}
use evilresp.Mutation.{MutationStrategy, MutationDepth, any, inner, SelectConfig}
use evilresp.Random.{Random}
use evilresp.Transport.Config.{TransportConfig}

module _ (r : Random) where
  open r use {F64, halved}

  -- The redirect of the topology and the filters of commands are left out.
  pub record EvilConfig : Type 0 where
    pub seed : ℕ
    pub mode : EvilMode
    pub probability : F64
    pub topology_probability : F64
    pub canonicalization : CanonicalizationMode
    pub strategy : MutationStrategy
    pub mutation_count : MutationCount
    pub depth : MutationDepth
    pub framing : FramingConfig r
    pub generator : GeneratorConfig
    pub exec : ExecConfig r
    pub transport : TransportConfig r

  -- What the selection of a frame reads.
  abbrev pub selection : EvilConfig → SelectConfig
  selection c = record { mode = c.mode; strategy = c.strategy; depth = c.depth }

  -- `MutationDepth::scale`.
  unfoldable pub scale : MutationDepth → F64 → ℕ → ℕ → F64
  scale any probability depth max_depth = probability
  scale inner probability depth max_depth = halved probability (min (max_depth - depth) 64)
