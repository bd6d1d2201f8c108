-- ===== src/Nfs4/Results.antt =====
-- The result of each operation, and what its DecodeRes makes of a reply. `r` is the value before.
pub mod Ops
pub mod WriteOps
pub mod SessionOps
unfoldable pub use Ops.*
unfoldable pub use WriteOps.*
unfoldable pub use SessionOps.*
