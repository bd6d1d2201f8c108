-- ===== src/Xdr.antt =====
-- Package xdr: the codec of RFC 4506, xdr/encoder.go and xdr/decoder.go.
pub mod Io
pub mod Encoder
pub mod Decoder
pub mod Codec
pub mod RoundTrip
pub mod Sticky
pub mod Parser
pub mod Fields
pub mod Bounds
pub mod Consumption
