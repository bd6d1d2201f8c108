-- ===== src/Client.antt =====
-- Package client: the file system on top of a connection, client/*.go.
pub mod Lease
pub mod File
pub mod Errors
pub mod Protocol
pub mod Paths
pub mod Handle
pub mod Opening
pub mod Dirs
pub mod Views
pub mod Mount
