-- ===== src/Server.antt =====
-- src/server: the node that holds a segment of the parameters.
pub mod KeyValueList
pub mod PullInfo
pub mod State
pub mod Update
pub mod Average
pub mod Answers
pub mod Replied
pub mod Rounds
pub mod Store
pub mod EndRound
pub mod Serving
pub mod Copies
pub mod Pulling
pub mod Found
pub mod Containers
pub mod Started
pub mod Range
pub mod Respond
pub mod Pull
pub mod Backup
pub mod Push
pub mod Configure
pub mod Reconfigure
pub mod Readded
pub mod Renewed
pub mod Handle
pub mod Steps
pub mod Completion
