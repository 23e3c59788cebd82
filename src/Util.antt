-- ===== src/Util.antt =====
-- src/util: the address of this machine.
pub mod Network
