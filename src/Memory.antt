-- ===== src/Memory.antt =====
-- The kernel's memory: kernel/heap.cpp.
pub mod Heap
