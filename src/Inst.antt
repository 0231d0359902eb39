-- ===== src/Inst.antt =====
-- Decoding and execution of one instruction: mayfly_emu/cpu/decode.h and mayfly_emu/cpu/inst.c.
pub mod Pattern
pub mod Table
pub mod Operand
pub mod Alu
pub mod Exec
