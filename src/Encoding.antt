-- ===== src/Encoding.antt =====
-- The character encodings of vellum/encoding.
pub mod Cp437
