-- ===== src/Tests.antt =====
-- Concrete runs of the emulator's parts, and each theorem at a concrete input.
pub mod Base
mod System
mod Memory
mod Device
mod Inst
mod Monitor
mod Expr
mod Sessions
mod Difftest
mod Trap
