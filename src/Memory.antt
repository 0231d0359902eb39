-- ===== src/Memory.antt =====
-- Memory as the guest sees it: mayfly_emu/memory.
pub mod Host
pub mod Paddr
pub mod Vaddr
