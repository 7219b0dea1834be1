-- ===== src/ByteOrder.antt =====
-- Byte order of what the encoders of c/struple.c write, against the order of the values.
pub mod Scalars
pub mod Ints
pub mod Frames
pub mod Apart
pub mod Pairs
pub mod Values
pub mod Decimals
pub mod SemanticDecimals
