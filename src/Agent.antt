-- ===== src/Agent.antt =====
-- src/agent/agent.h and agent.cc: the node between a worker and the servers.
pub mod State
pub mod Sort
pub mod Push
pub mod Blocks
pub mod Deliver
pub mod Pull
pub mod Reply
pub mod Collect
pub mod Requests
pub mod Arrivals
pub mod Pulled
pub mod Configure
pub mod Work
