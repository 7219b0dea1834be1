-- ===== src/RoundTrip.antt =====
-- Reading back what the `append` functions of c/struple.c write.
pub mod Ints
pub mod Magnitudes
pub mod Slots
pub mod Framed
pub mod Scalars
pub mod Elements
pub mod Streams
pub mod Views
pub mod Entries
pub mod Maps
pub mod Decimals
