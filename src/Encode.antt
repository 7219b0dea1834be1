-- ===== src/Encode.antt =====
-- The `append` functions of c/struple.c.
pub mod Sorting
pub mod Ints
pub mod Scalars
pub mod Decimals
pub mod Containers
pub mod Canonical
pub mod Appending
