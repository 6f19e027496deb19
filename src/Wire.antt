-- ===== src/Wire.antt =====
-- include/policy/wire.hpp: the fixed 64-byte request and decision messages.
--
-- A struct is the list of its fields with their widths (`layout`), which is its layout in memory
-- since no field is padded. `Host` is the byte order of the machine that runs the code. Bytes are
-- numbers below 256.
pub mod Bytes
pub mod Messages
pub mod Fields
pub mod Codec
mod Tests
