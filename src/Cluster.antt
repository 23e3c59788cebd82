-- ===== src/Cluster.antt =====
-- Nodes that work together: what one sends, another takes.
pub mod Segment
pub mod Push
pub mod Source
pub mod Pull
pub mod Ready
