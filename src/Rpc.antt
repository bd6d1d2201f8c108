-- ===== src/Rpc.antt =====
-- Package rpc: ONC RPC over a stream, rpc/*.go.
pub mod Auth
pub mod Message
pub mod RoundTrip
pub mod Replies
pub mod Truncated
pub mod Record
pub mod Client
