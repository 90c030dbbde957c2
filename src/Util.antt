-- ===== src/Util.antt =====
-- lib-sxe-util and the string functions of lib-sxe-log: text and number utilities. A `char *` is the
-- list of the bytes from the pointer on; where a loop stops at a NUL, the end of the list counts as
-- one. A shift and a bit-or whose operands have no bit in common are a product and a sum.
pub mod Hex
pub mod Log2
pub mod Rot13
pub mod Strl
pub mod Search
pub mod Encode
pub mod Printable
