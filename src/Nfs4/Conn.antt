-- ===== src/Nfs4/Conn.antt =====
-- nfs4/conn.go, nfs4/conn_write.go and nfs4/transport.go: a connection, and its operations.
pub mod Stack
pub mod Action
pub mod Zero
pub mod Bootstrap
pub mod Reading
pub mod Writing
pub mod Names
pub mod Carried
pub mod Walks
pub mod Wire
pub mod Mounting
pub mod Opening
pub mod Speaks
pub mod Panics
