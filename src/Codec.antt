-- ===== src/Codec.antt =====
-- The byte formats of the index (milli/src/heed_codec).
pub mod Bytes
pub mod Cbo
pub mod Words
pub mod BigEndian
pub mod Floats
pub mod Levels
pub mod Fixed
pub mod Strings
mod Examples
