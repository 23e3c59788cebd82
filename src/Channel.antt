-- ===== src/Channel.antt =====
-- src/channel: how an agent and its worker wake each other.
pub mod Fifo
