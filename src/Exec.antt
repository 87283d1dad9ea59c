-- ===== src/Exec.antt =====
-- How programs get into memory.
pub mod Elf
