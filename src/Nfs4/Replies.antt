-- ===== src/Nfs4/Replies.antt =====
-- nfs_resop4 as RFC 7530 and RFC 8881 lay it out: what a server writes, and how the client reads it.
pub mod Ops
pub mod Directories
pub mod Termination
pub mod Opens
pub mod WriteOps
pub mod Changes
pub mod SessionOps
