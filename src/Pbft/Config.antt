-- ===== src/Pbft/Config.antt =====
-- src/pbft.rs: `PbftError`, `PbftConfig` and the size of a quorum.
use p2p_pbft.Base.{ℕ, ◌+◌, ◌-◌, ◌*◌, ◌/◌, ◌^◌, wrap64}

pub data PbftError : Type 0 where
  invalid_message invalid_signature invalid_view invalid_sequence : PbftError
  not_primary duplicate_message : PbftError

-- The timeout is in nanoseconds.
pub record PbftConfig : Type 0 where
  pub n : ℕ
  pub f : ℕ
  pub view_change_timeout : ℕ
  pub checkpoint_interval : ℕ

-- `n - 1` wraps at `n = 0`.
unfoldable pub config_new : ℕ → PbftConfig
config_new n = record {
  n = n;
  f = wrap64 (n + 2 ^ 64 - 1) / 3;
  view_change_timeout = 10 * 1_000_000_000;
  checkpoint_interval = 100;
}

unfoldable pub quorum : PbftConfig → ℕ
quorum c = wrap64 (2 * c.f + 1)
