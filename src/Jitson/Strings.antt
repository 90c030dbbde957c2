-- ===== src/Jitson/Strings.antt =====
-- The strings of lib-sxe-jitson/sxe-jitson-stack.c that are well spelled.
pub mod Escapes
pub mod Tokens
pub mod Loop
pub mod Load
