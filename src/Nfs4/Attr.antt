-- ===== src/Nfs4/Attr.antt =====
-- Package nfs4/attr: attribute bitmaps and fattr4 values, nfs4/attr/*.go.
pub mod Bitmap
pub mod Attributes
pub mod Settable
pub mod Mode
pub mod Statvfs
