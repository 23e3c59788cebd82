-- ===== src/Master/State.antt =====
-- src/master/master.h: the fields of `Master`. Times are seconds.
use plug_in_ml.Base.{ℕ, Bool, List, ℤ}
use plug_in_ml.Message.{Message}
use plug_in_ml.Communicator.{Sender}
use plug_in_ml.Master.TaskConfig.{TaskConfig}

-- `watching` tells whether the threads of heartbeat and detection have been started.
pub record Master (F : Type 0) : Type 0 where
  pub config : TaskConfig
  pub sender : Sender (Message F)
  pub alive_node : List (ℤ × ℕ)
  pub terminated_node : List ℤ
  pub is_lead : Bool
  pub watching : Bool

abbrev pub heartbeat_timeout : ℕ
heartbeat_timeout = 30

abbrev pub max_cluster_node : ℕ
max_cluster_node = 10000
