-- ===== src/Tests/Cluster.antt =====
-- Messages of the cluster of two servers and two agents: rounds, copies, and a push that arrives.
use plug_in_ml.Base.{
  ◌+◌, ℕ, zero, suc, ◌≤◌, ◌<◌, ◌≡◌, refl, Option, some, none, List, [], ◌∷◌, ◌++◌, map, ℤ, pos,
  get_elem?, set, All, lookup, contains, arith,
}
use plug_in_ml.Message.{Message, MessageType, RequestMessage, RequestType, Addr}
use plug_in_ml.Communicator.{send}
use plug_in_ml.Agent.State.{Agent}
use plug_in_ml.Agent.Push.{push}
use plug_in_ml.Server.State.{Server, fixed}
use plug_in_ml.Server.Rounds.{count_longer}
use plug_in_ml.Server.Backup.{predecessor, backup_request}
use plug_in_ml.Server.Configure.{range_length}
use plug_in_ml.Server.Copies.{handle-backup_request}
use plug_in_ml.Server.Serving.{IsServing}
use plug_in_ml.Server.Handle.{handle, start}
use plug_in_ml.Server.Steps.{Expected, a_push, a_pull, start-IsServing}
use plug_in_ml.Server.Completion.{FirstPush, start-ends_round}
use plug_in_ml.Cluster.Push.{IsPeer, sent_to, push-start}
use plug_in_ml.Tests.Server.{
  whole_numbers, segment, server, server-IsServing, request, request-Fits, last_server, cluster,
  cluster-IsSpread,
}
use plug_in_ml.Tests.Agent.{agent, gradients-IsGradient}

no_close : Addr → ℤ
no_close addr = pos 0

abbrev from_agent : ℤ → RequestMessage ℕ → Message ℕ
from_agent id body = record {
  send_id = id;
  recv_id = pos 1;
  message_type = MessageType.request;
  config_msg = none;
  request_msg = some body;
  heartbeat_msg = none;
  register_msg = none;
}

abbrev pull_of_3 : RequestMessage ℕ
pull_of_3 = record { request_type = RequestType.key; keys = pos 3 ∷ []; values = [] }

no_server_asks : (id : ℤ) → lookup id server.servers ≡ none
unfolding lookup
no_server_asks id = refl

messages-Expected :
    All (Expected server) (from_agent (pos 4) request ∷ from_agent (pos 3) pull_of_3 ∷ [])
messages-Expected = (
  a_push request (no_server_asks (pos 4)) refl refl refl request-Fits,
  (a_pull pull_of_3 (no_server_asks (pos 3)) refl refl refl (segment 0 (omega arith), tt), tt),
)

start-IsServing_example :
    (s' : Server ℕ) × (start no_close server
        (from_agent (pos 4) request ∷ from_agent (pos 3) pull_of_3 ∷ [])
      ≡ some s')
    × IsServing s'
    × (fixed s' ≡ fixed server)
start-IsServing_example =
    start-IsServing no_close server (from_agent (pos 4) request ∷ from_agent (pos 3) pull_of_3 ∷ [])
      server-IsServing messages-Expected

-- Agent 4 is the only one without an update.
agent_4_first : FirstPush server 1 (from_agent (pos 4) request)
unfolding lookup contains
agent_4_first = record {
  body = request;
  other = refl;
  typed = refl;
  has = refl;
  kind = refl;
  fits = request-Fits;
  member = refl;
  empty = (refl, refl);
}

one_missing : count_longer 0 server.version_buffer + 1 ≡ 2
unfolding count_longer
one_missing = refl

start-ends_round_example :
    (s' : Server ℕ) × (start no_close server (from_agent (pos 4) request ∷ []) ≡ some s')
    × IsServing s'
    × (s'.bottom_version ≡ 1)
    × (s'.pull_request ≡ [])
start-ends_round_example =
    start-ends_round no_close server ((1, from_agent (pos 4) request) ∷ []) server-IsServing
      (agent_4_first, tt) (tt, tt) one_missing

abbrev both_servers : List (ℤ × ℕ)
both_servers = (pos 1, 0) ∷ (pos 2, 1) ∷ []

abbrev first_peer : Server ℕ
first_peer = record server { servers = both_servers }

-- It keeps one copy, of the server before it.
abbrev second_peer : Server ℕ
second_peer = record last_server {
  local_index = 1;
  servers = both_servers;
  backup_parameters = (1 ∷ 2 ∷ []) ∷ [];
}

known_2 : lookup (pos 2) both_servers ≡ some 1
unfolding lookup
known_2 = refl

known_1 : lookup (pos 1) both_servers ≡ some (predecessor second_peer 1)
unfolding lookup predecessor
known_1 = refl

handle-backup_request_example :
    (reply : Message ℕ) × (handle no_close first_peer (backup_request (pos 2) (pos 1))
      ≡ some (record first_peer { sender = send (pos 2) reply first_peer.sender }))
    × (handle no_close second_peer reply
        ≡ some (record second_peer { backup_parameters = (10 ∷ 20 ∷ 30 ∷ []) ∷ [] }))
handle-backup_request_example =
    handle-backup_request no_close first_peer second_peer 1 1 refl known_2 (omega arith)
      (omega arith) (omega arith) known_1 (omega arith)

-- The agent with the partition of the cluster.
abbrev peer_agent : Agent ℕ
peer_agent = record agent {
  partition = record { key_range = 10; server_num = 2; part_vec = pos 3 ∷ pos 6 ∷ [] };
}

first_place : (j : ℕ) → get_elem? peer_agent.server_ids j ≡ some (pos 1) → j ≡ 0
first_place zero e = refl
first_place (suc zero) e = ground (arith, e)
first_place (suc (suc j)) e = cc

segment_length : range_length cluster 0 ≡ some 3
unfolding range_length plug_in_ml.Base.◌-ℤ◌ plug_in_ml.Base.◌+ℤ◌
segment_length = refl

server-IsPeer : IsPeer cluster peer_agent 0 (pos 1) server
server-IsPeer = record {
  spread = cluster-IsSpread;
  same_parts = refl;
  inner = omega arith;
  has_place = record { start = refl; length_field = segment_length };
  only_place = first_place;
  no_server = no_server_asks (pos 3);
}

push-start_example :
    (agent' : Agent ℕ) × (messages : List (ℤ × Message ℕ)) × (push peer_agent ≡ some agent')
    × (agent'.sender.sent ≡ messages)
    × ((s' : Server ℕ) × (start no_close server (sent_to (pos 1) messages) ≡ some s')
        × IsServing s')
push-start_example =
    push-start no_close cluster peer_agent 0 (pos 1) server
      (record { sized = refl; served = omega arith; sorted = ((omega arith, tt), (tt, tt)) }) refl
      gradients-IsGradient server-IsPeer server-IsServing
