-- ===== src/Lib.antt =====
-- SQPKV, a key-value server over RocksDB: its packets, the protocol that carries them over sockets,
-- the handler that serves them from buffers, the worker and the client that exchange them over a
-- connection, the rules by which keys are grouped and sharded, the start of the processes of a cluster,
-- the server that accepts clients, the transport over RDMA, and the prompt of the client program.
--
-- The parts of the program and their files:
--   * src/protocol/status.cc and include/sqpkv/status.h are Status: the result of an operation.
--   * src/protocol/packet.h and packet.cc are Packet. Packet.antt has the base class and its cursors
--     (AddValue, ReadSlice, ...), Packet/Command the four command packets, Packet/Response the four
--     response packets, Packet/Factory the two factories. Packet/Wire and Packet/Reply say, apart from
--     the code, which bytes a request and a reply are on the wire.
--   * src/protocol/protocol.cc is Protocol: SendPacket cuts a packet into chunks and ends it with a
--     short write, ReadWholePacket takes it together again by a short read. Protocol/Requests, Replies and
--     Parts are about what ReadFromClient and ReadFromServer make of that.
--   * src/server/kv_request_handler.cc is KvRequestHandler: one command from an input buffer, the
--     database, one response in an output buffer. KvRequestHandler/Serve is what it is to do;
--     KvRequestHandler/Store is a sequence of requests against a map from keys to values.
--   * src/server/kv_worker.cc is KvWorker: the loop that reads commands, does them and answers.
--   * src/client/connection.cc is Connection: the calls Get, Put, Delete and GetAll.
--   * src/server/table_prefix_transform.cc is TablePrefix, src/server/sharding_policy.cc is Sharding:
--     both read a key as a table's name, '_' and a number.
--   * src/server/sharding_proxy_worker.cc is ShardingProxyWorker: it passes commands on to the servers of
--     the shards, and gathers the keys of all of them. CreateProxy connects to them with the
--     SockConnectTo of src/protocol/net_utils.cc, which is Network.
--   * src/server/server.cc is Server: the accept loop, which makes a worker for each client. A class of
--     workers with its factory is a record Workers; Server/Factories has the two of them,
--     src/server/kv_worker_factory.cc and src/server/sharding_proxy_worker_factory.cc.
--   * src/server/server_launcher.cc is ServerLauncher: one process of the cluster learns its shard id,
--     which process is the proxy, and the addresses of the others (ServerLauncher/Addresses and Launch),
--     before it starts a Server. ServerLauncher/Numbers has std::to_string and std::stoi.
--     ServerLauncher/Program has ShakeHands as the calls of MPI that it makes, for the system of all
--     processes; ServerLauncher/Agreement, Validity, Commit and Deadlock are about that system.
--   * Cluster is the processes that exchange messages by MPI: what a process does (Does), the steps by which
--     the processes go on together, and Cluster/Execution, what MPI keeps in any execution.
--   * src/rdma is Rdma: Rdma.antt has the context of a connection and the posting of work, Rdma/Events the
--     events of its life at the client and the server, Rdma/Completions what is done for completed work,
--     and the loop of the poller thread that takes it (Rdma/Poller). It calls a Handler,
--     src/rdma/request_handler.h, of which KvRequestHandler is one (Rdma/Serving).
--   * src/server/sharding_proxy_request_handler.cc is ShardingProxyRequestHandler.
--   * src/client/main.cc is ClientMain: the prompt, which splits a line into a call of Connection.
--   * src/server/main.cc is ServerMain, with ProxyMain, ShardMain and the end of Run: the whole program of a
--     process, from the signal handler to its exit code.
--   * Memory and Prelude are shared: blocks of memory, and lists, tests and C++'s integers.
--   * Tests runs the definitions on small inputs.
-- An operation keeps the name of its function, a type the name of its class, in snake case where it
-- is a function (HandleReadCompletion is handle_read_completion). Overloaded constructors have a name
-- each: get_of_buf parses a received GetPacket, build_get makes one from a key.
--
-- How the code is read:
--   * A block of memory is the list of its bytes. An access past the end of a block, an access through
--     a null pointer, a division by zero and a function that ends without its return are faults: the
--     operation gives `none`. Only the start of a server that is a null pointer, and the signal that it raises,
--     is a value (ServerMain): any other fault ends the process by the signal's handler too.
--   * uint32_t values wrap around, written as `% u32_mod`; int is two's complement (Prelude/Int). The number
--     of nodes of a sharding policy is below 2 ^ 31. The storage of a vector that has been received into has
--     zeros behind its bytes, up to its capacity (storage of Protocol).
--   * A unique_ptr that has been released holds no block: a packet built into a caller's buffer
--     returns with `payload = none`, and the slices keep the bytes they were read from.
--   * What is not in the repository is a record of the functions that are called: RocksDB is Rocks, the
--     sockets are Sockets, the calls that open connections are Network, MPI is Mpi, and ibverbs with
--     rdmacm is Verbs. Rocks/Laws and Sockets/Laws state the documented behaviour that a theorem relies
--     on: an iterator runs through the keys in order from the sought key on; (Rocks/Contents) a database holds
--     at most one value for a key, and finds what was put last and not deleted; a socket takes writes whole
--     and keeps the order; a read takes what has arrived, as far as it has room. MpiLaws in
--     ServerLauncher/HandShake does so for MPI_Recv: it takes the first int that is to come from its rank,
--     leaves those of the other ranks, and never returns where none is to come. Cluster/Execution does so for
--     all ranks: the ints from one rank to another, and the values of one root, come in their order. A blocking
--     MPI_Send or MPI_Bcast has fewer executions than these.
--   * A call of MPI that never returns, and a wait for ever, gives `none` like a fault.
--   * Loops over a list are recursion on it. A loop that is left by a test of the outside world takes
--     fuel: the loop over an iterator one round for each key and one more (Scan), the loop of
--     SendPacket as many rounds as the packet has bytes and one more (send_slice gives them itself),
--     ReadWholePacket three rounds for a packet under three chunks, ForwardPacket one round more than
--     there are bytes. The loops of the workers take one round for each command, that of Start one
--     more than there are clients, those of src/rdma one for each event, and the prompt one for each line.
--
-- Not modelled: log output; threads, so that a worker's thread is the run of its loop and the poller
-- thread of a connection is apart from the thread of its events, and a fault in a worker's thread does not
-- end the run of main; the exchange of addresses of all processes
-- as one system (ResolveIpAddresses is one process before the messages that come to it);
-- include/sqpkv/common.h, which holds no logic of its own.
pub mod Prelude
pub mod Memory
pub mod Rocks
pub mod Status
pub mod Packet
pub mod KvRequestHandler
pub mod TablePrefix
pub mod Sharding
pub mod Sockets
pub mod Network
pub mod Protocol
pub mod KvWorker
pub mod Connection
pub mod ClientMain
pub mod ShardingProxyWorker
pub mod Server
pub mod Rdma
pub mod ShardingProxyRequestHandler
pub mod ServerLauncher
pub mod ServerMain
pub mod Tests
pub mod Cluster
