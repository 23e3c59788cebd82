-- ===== src/Tests/Start.antt =====
-- src/master/master.cc, MainLoop: a cluster of one server and one agent becomes ready.
use plug_in_ml.Base.{ℕ, true, false, some, List, [], ◌∷◌, ◌≡◌, refl, All, ℤ, pos, arith}
use plug_in_ml.Message.{Addr, Message}
use plug_in_ml.Communicator.{fresh_sender}
use plug_in_ml.Master.TaskConfig
use plug_in_ml.Master.TaskConfig.{
  TaskConfig, append_agent, append_server, generate_partition, join_addr,
}
use plug_in_ml.Master.State.{Master}
use plug_in_ml.Master.Loop.{start_cluster}
use plug_in_ml.Master.Registered.{
  IsRegistered, message_of, append_agent-IsRegistered, append_server-IsRegistered,
}
use plug_in_ml.Master.Registration.{initialize-IsRegistered}
use plug_in_ml.Master.Start.{IsAddr, Knows}
use plug_in_ml.Master.Start.Delivered.{Delivered, start_cluster-Delivered}

abbrev server_and_agent : TaskConfig
server_and_agent =
    append_agent (49 ∷ []) 80 (append_server (50 ∷ []) 5555 (TaskConfig.initialize 1 1 10 1 0))

abbrev ready_master : Master ℕ
ready_master = record {
  config = server_and_agent;
  sender = fresh_sender;
  alive_node = [];
  terminated_node = [];
  is_lead = true;
  watching = false;
}

abbrev addresses : List Addr
addresses = join_addr (50 ∷ []) 5555 ∷ join_addr (49 ∷ []) 80 ∷ []

server_and_agent-IsRegistered : IsRegistered server_and_agent addresses
server_and_agent-IsRegistered =
    append_agent-IsRegistered (49 ∷ []) 80
      (append_server (50 ∷ []) 5555 (TaskConfig.initialize 1 1 10 1 0))
      (join_addr (50 ∷ []) 5555 ∷ [])
      (append_server-IsRegistered (50 ∷ []) 5555 (TaskConfig.initialize 1 1 10 1 0) []
        (initialize-IsRegistered 1 1 10 1 0))

both-IsAddr : All IsAddr addresses
unfolding join_addr
both-IsAddr = (
  record { ip = 50 ∷ []; port = 5555; joined = refl; no_colon = (refl, tt); small = omega arith },
  (
    record { ip = 49 ∷ []; port = 80; joined = refl; no_colon = (refl, tt); small = omega arith },
    tt,
  ),
)

start_cluster-Delivered_example :
    (m' : Master ℕ) × (new : List (ℤ × Message ℕ)) × (start_cluster (λ i. pos 4) 7 ready_master
      ≡ some m')
    × (m'.sender.sent ≡ new)
    × Delivered (message_of (generate_partition (λ i. pos 4) server_and_agent) addresses) 2 0 new
    × Knows 0 addresses both-IsAddr m'.sender.id_to_addr
    × (m'.watching ≡ true)
start_cluster-Delivered_example =
    start_cluster-Delivered (λ i. pos 4) 7 ready_master addresses server_and_agent-IsRegistered
      both-IsAddr (omega arith) refl
