-- ===== src/Agent/Work.antt =====
-- src/agent/agent.cc: AgentWork, one round of the loop for a signal of the worker, the heartbeat
-- thread, and src/channel/shared_memory.cc: Write.
use plug_in_ml.Base.{ℕ, zero, suc, true, Option, some, none, List, [], ◌∷◌, ◌++◌, ℤ, pos, ◌>>=◌}
use plug_in_ml.Message.{Addr, Message, MessageType}
use plug_in_ml.Communicator.{send}
use plug_in_ml.Agent.State.{Agent, ShmStruct}
use plug_in_ml.Agent.Push.{push}
use plug_in_ml.Agent.Pull.{pull}
use plug_in_ml.Agent.Configure.{reconfigurate}

-- How a round ends: the loop goes on, waits inside `Pull`, or has ended.
pub data Outcome (F : Type 0) : Type 0 where
  working : Agent F → List (Option (Message F)) → Outcome F
  waiting : List (Option (Message F)) → Outcome F
  ended : Agent F → Outcome F

module _ {F : Type 0} where
  -- `SharedMemory::Write` copies both arrays and the size over what is there.
  unfoldable pub write : ShmStruct F → ShmStruct F → ShmStruct F
  write shared written = record shared {
    values = written.values;
    keys = written.keys;
    size = written.size;
  }

  unfoldable pub check_reconfig : (Addr → ℤ) → Agent F → Option (Agent F)
  check_reconfig zmq_close agent = elim agent.reconfig_msg [
    | none ↦ some agent
    | some msg ↦ reconfigurate zmq_close msg agent
  ]

  -- Signal 0: pull, write the parameters for the worker, signal it.
  unfoldable pub work_pull : Agent F → ShmStruct F → List (Option (Message F)) → Option (Outcome F)
  work_pull agent memory arriving = do
    (pulled, rest) ← pull (record agent { parameters = memory }) arriving
    some (elim pulled [
      | none ↦ waiting rest
      | some a ↦
          working
            (record a {
              para_memory = write a.para_memory a.parameters;
              signals = a.signals ++ 2 ∷ [];
            })
            rest
    ])

  -- Signal 1: push the gradients; one more epoch.
  unfoldable pub work_push : Agent F → ShmStruct F → Option (Agent F)
  work_push agent memory = do
    pushed ← push (record agent { gradients = memory })
    some (record pushed { epoch_num = suc pushed.epoch_num })

  -- Any other signal: tell the master.
  unfoldable pub work_terminate : Agent F → Agent F
  work_terminate agent = record agent {
    sender =
        send (pos 0)
          (record {
            send_id = agent.local_id;
            recv_id = pos 0;
            message_type = MessageType.terminate;
            config_msg = none;
            request_msg = none;
            heartbeat_msg = none;
            register_msg = none;
          })
          agent.sender;
  }

  -- One round: a waiting configuration is taken first. `memory` is what the worker left in the
  -- gradient memory.
  unfoldable pub work :
      (Addr → ℤ) → Agent F → ℕ → ShmStruct F → List (Option (Message F)) → Option (Outcome F)
  unfolding work_pull work_push work_terminate
  work zmq_close agent zero memory arriving = do
    a ← check_reconfig zmq_close agent
    work_pull a memory arriving
  work zmq_close agent (suc zero) memory arriving = do
    a ← check_reconfig zmq_close agent
    pushed ← work_push a memory
    some (working pushed arriving)
  work zmq_close agent (suc (suc n)) memory arriving = do
    a ← check_reconfig zmq_close agent
    some (ended (work_terminate a))

  -- The heartbeat thread, for one message of the master: a configuration is kept for the main
  -- thread, and the answer carries the epoch. `send_id` is the agent's id when the thread began.
  unfoldable pub heart_beat : ℤ → Agent F → Message F → Agent F
  heart_beat send_id agent received = record agent {
    reconfig_msg = elim received.config_msg [ none ↦ agent.reconfig_msg | some c ↦ some received ];
    sender =
        send (pos 0)
          (record {
            send_id = send_id;
            recv_id = received.send_id;
            message_type = MessageType.heartbeat;
            config_msg = none;
            request_msg = none;
            heartbeat_msg = some (record { is_live = true; agent_epoch_num = agent.epoch_num });
            register_msg = none;
          })
          agent.sender;
  }
