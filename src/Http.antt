-- ===== src/Http.antt =====
-- The HTTP parts of the library.
pub mod Message
pub mod Url
