-- ===== src/Nfs4/Attrs/Clock.antt =====
-- nfs4/attrs.rs: `nfstime4`, whose signed seconds become unsigned ones.
use nfs_rs.Common.{ℕ, ◌-◌, ◌^◌, ltb, leb, if◌then◌else◌}
use nfs_rs.Errors.{xdr}
use nfs_rs.Wire.{Reader, ◌>>=◌, ◌>>◌, pure, require, get_u32, get_u64}

pub record Time : Type 0 where
  pub seconds : ℕ
  pub nseconds : ℕ

-- The two's complement of a signed number of seconds, clamped to a u32.
pub clamped : ℕ → ℕ
clamped seconds =
    if leb (2 ^ 63) seconds then 0 else if ltb (2 ^ 32 - 1) seconds then 2 ^ 32 - 1 else seconds

unfoldable pub decode_nfstime4 : Reader Time
decode_nfstime4 = do
  require 12 xdr
  seconds ← get_u64
  nseconds ← get_u32
  pure (record { seconds = clamped seconds; nseconds = nseconds })
