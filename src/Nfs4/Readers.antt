-- ===== src/Nfs4/Readers.antt =====
-- How a server reads the body of each operation, after RFC 7530 and RFC 8881.
pub mod Ops
pub mod WriteOps
pub mod SessionOps
unfoldable pub use Ops.*
unfoldable pub use WriteOps.*
unfoldable pub use SessionOps.*
