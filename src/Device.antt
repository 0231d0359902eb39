-- ===== src/Device.antt =====
-- The devices of mayfly_emu/device.
pub mod Aclint
pub mod Flash
pub mod Plic
pub mod Serial
