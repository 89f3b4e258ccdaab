-- ===== src/Libc.antt =====
-- The C library of vellum/stdc, as far as it computes.
pub mod Calendar
pub mod Ctype
pub mod Numbers
pub mod Strings
pub mod Memory
