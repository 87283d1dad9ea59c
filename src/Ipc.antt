-- ===== src/Ipc.antt =====
-- Channels between tasks: the byte rings of kernel/pipe.cpp and kernel/pty.cpp.
pub mod Ring
pub mod Pipe
pub mod Pty
