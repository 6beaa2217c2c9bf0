-- ===== src/Nfs41/Compound/Reply/Exact.antt =====
-- The decoder gives back the results that a server wrote, each with the bytes behind it.
use nfs_rs.Assoc.{nat_eq}
