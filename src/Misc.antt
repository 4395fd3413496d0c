-- ===== src/Misc.antt =====
-- src/misc.c.
pub mod Strings
pub mod Config
pub mod Lists
