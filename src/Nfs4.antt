-- ===== src/Nfs4.antt =====
-- Package nfs4: the NFSv4.0 and 4.1 protocol, nfs4/*.go.
pub mod Types
pub mod Opnums
pub mod Args
pub mod Readers
pub mod Server
pub mod Compound
pub mod Results
pub mod Replies
pub mod Caller
pub mod Session
pub mod SessionCaller
pub mod Attr
pub mod Retry
pub mod Conn
