-- ===== src/Tests.antt =====
-- Small concrete clusters, and what the theorems give for them.
mod Communicator
mod Partition
mod Server
mod Agent
mod Master
mod Cluster
mod Util
mod Channel
mod Lead
mod Pull
mod Start
mod Reconfigure
