-- ===== src/Ser.antt =====
-- lightning/src/util/ser.rs, util/byte_utils.rs and ln/wire.rs: how values and messages become bytes,
-- and bytes become values. A reader is what is left of the stream.
pub mod Codec
pub mod BigSize
pub mod Dropped
pub mod Keys
pub mod Updates
pub mod Messages
pub mod Back
pub mod Wire
