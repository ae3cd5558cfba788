-- ===== src/Clib.antt =====
-- What the firmware uses of the C language and its library.
pub mod Text
pub mod Atoi
pub mod Format
pub mod Arith
