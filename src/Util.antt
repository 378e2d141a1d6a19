-- ===== src/Util.antt =====
-- The functions of common/inutil and of the C library that the server calls on strings.
pub mod Sepstr
pub mod Decimal
pub mod Trim
