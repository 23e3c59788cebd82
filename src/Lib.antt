-- ===== src/Lib.antt =====
-- Plug-in ML: a parameter server. Workers compute gradients; an agent beside each worker pushes
-- them to servers and pulls parameters back; a master tells all nodes the configuration, in which an
-- ascending partition cuts the ring of keys into one arc for each server.
--
-- The parts, and the files that model them:
--
--   Partition (src/agent/partition.h, partition.cc): `get_server_by_key` and `next_ending` are
--     GetServerByKey and NextEnding. Partition/Search has the library's two searches, Partition/Owner
--     the arcs, Partition/Runs the runs of keys of one server.
--   Server (src/server): `Server.State.Server` has the fields of the class. Server/Configure is
--     Initialize, Server/Push ServePush, Server/Update UpdateParameter, Server/Pull ServePull and
--     RespondToAll, Server/Backup the copies that servers keep of each other, Server/Reconfigure
--     Reconfigure, Server/Handle the dispatch of Start and the heartbeat thread; Server/KeyValueList
--     and Server/PullInfo are the classes of these names. Server/Average, Answers, Respond, Replied, Rounds,
--     Store, EndRound, Serving, Range, Pulling, Found, Containers, Started, Copies, Steps, Completion,
--     Readded and Renewed are about what these do.
--   Agent (src/agent/agent.h, agent.cc; src/channel/shared_memory.h): Agent/State the fields,
--     Agent/Sort SortKeyValue, Agent/Push Push, Agent/Pull Pull, Agent/Configure Initialize and
--     Reconfigurate, Agent/Work the main loop and the heartbeat thread. Agent/Sort/Insert and
--     Agent/Sort/Sorted are about SortKeyValue, Agent/Blocks and Agent/Deliver about Push,
--     Agent/Reply, Collect, Requests, Arrivals and
--     Pulled about Pull, Agent/Sort/Order about the library's sort.
--   Master (src/master): Master/TaskConfig the configuration, Master/Deliver what is sent to the
--     nodes, Master/Loop registration, the main loop and dead nodes. Master/Cut and Master/Fix are
--     about the partition and about FixConfig, Master/Numbered, Registered and Registration about ids
--     and addresses, Master/Rounds and Termination about the end of the loop, Master/Silent and Dead
--     about dead nodes. Master/Lead is the constructor and the code under USE_ZOOKEEPER, with
--     Lead/Election about it; Master/Start and Start/Delivered are about the start of the cluster.
--   Communicator (src/communication): the table of addresses and what was handed to Send;
--     Communicator/Ring is FifoRing, with Ring/Held and Ring/Queue about it, Communicator/Wire the id
--     that Send writes before a message and Consume takes off, Communicator/Socket ZmqSendRecv, with
--     Socket/Laws about it, Communicator/Threads ZmqCommunicator with its thread, with Threads/Order
--     about it.
--   Message (src/message/message.proto): the messages as records and enumerations.
--   Channel/Fifo (src/channel/fifo.h, fifo.cc): Fifo over the system's open, read, write and close, with
--     Fifo/Order about it.
--   Cluster: nodes that work together. Cluster/Segment is about one message's keys at a server,
--     Cluster/Push about all messages of a push, Cluster/Source and Cluster/Pull about the requests of
--     a pull and their answers, Cluster/Ready about the first configuration.
--   Util/Network (src/util/network_util.h): GetIP and GetAvailableInterfaceAndIP, with Network/First
--     about them.
--   Text: decimal numbers and separators in byte strings, with Text/Laws and Text/Lines about them. Floats: the arithmetic on parameters.
--   Base: tests, lists with native indices, integers, the loop `for`, association lists.
--   Tests: small clusters, and the theorems applied to them.
--
-- How the code is read. A handler is a function from the state and a message to the next state; what
-- it sends is appended to `sent` of the communicator's record. `none` is a read or write outside a
-- container or an array, which C++ does not define, or a vector of negative length, where it throws;
-- in the ring it is also a semaphore that waits. Keys and ids are
-- signed integers, counts natural numbers, without wrap-around, but for the listening port, an int16:
-- the largest sums are of two numbers of the key range, which stay below 2 ^ 31 where the key range is
-- below 2 ^ 30. Floats are any type with a zero, a sum and a quotient by a number, without laws. A std
-- map or unordered map is an association list. Messages are values: protobuf's encoding is not
-- modelled. Random draws, the results of ZeroMQ's and ZooKeeper's calls and of the system's calls on
-- fifos, the list of getifaddrs and the time are arguments.
--
-- The loops of Push and Pull run on fuel, one round more than there are keys, since a run of keys is
-- never empty. A number is printed with up to ten digits, enough for 32 bits.
--
-- Not modelled: ZeroMQ itself, ZooKeeper itself, the mapping of shared memory, logging, flags and main programs,
-- and the interleaving of threads, each of whose rounds is one step.
pub mod Base
pub mod Text
pub mod Message
pub mod Floats
pub mod Communicator
pub mod Channel
pub mod Partition
pub mod Server
pub mod Agent
pub mod Master
pub mod Cluster
pub mod Util
pub mod Tests
