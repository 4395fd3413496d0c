-- ===== src/Grub.antt =====
-- src/grub.c.
pub mod Device
pub mod Menu
pub mod Config
