-- ===== src/Lib.antt =====
-- A verification library for the distributed lock service: replicas agree on a sequence of views
-- by Paxos (paxos.cc, log.cc), the view layer (config.cc) turns the agreed values into member
-- lists, the replicated state machine (rsm.cc) runs client requests at every member of the view,
-- and the lock server (lock_server_cache_rsm.cc) is what it replicates. Clients find the primary
-- (rsm_client.cc), cache locks (lock_client_cache_rsm.cc), and keep files and directories
-- (yfs_client.cc) in a cache of extents (extent_client.cc) in front of the extent server
-- (extent_server.cc). All of them talk by the RPC library (rpc/rpc.cc).
--
-- Base holds what all parts share: Boolean tests and keys (Base/Tests), lists (Base/Lists),
-- std::string as a list of bytes with its order (Base/Bytes), and std::map as the list of its
-- entries in key order (Base/Map), where the read m[k] leaves an entry behind as in C++.
--
-- Paxos/Proposal: prop_t and its order. Paxos/State, Paxos/Acceptor: class acceptor, its RPC
-- handlers, commits and constructor; Paxos/Acceptor/Calls is a sequence of calls, Promise, Commits,
-- Recovery and Restart are about such sequences, and Stale about requests that come late.
-- Paxos/Log: log.cc, the text that it writes and the reader, with Log/Numbers for the numbers in
-- the text and Log/RoundTrip for reading back what was written. Paxos/Members: isamember and
-- majority. Paxos/Proposer: class proposer; Gather and Outcome are about its loops and its runs.
-- Paxos/Agreement: one instance over many nodes, as a step relation over the same handlers, with
-- its invariant (Invariant), the steps that keep it (Steps, Rpcs, Propose) and the result (Chosen).
-- Rsm: class rsm over a replicated machine, with Rsm/StateTransfer for what it asks of the machine;
-- Rsm/Views is about view changes and the primary, Rsm/Replicas about a client's request at the
-- primary and the backups, and Rsm/Cluster about many nodes and the transfer of state.
-- Locks/ReplicatedServer: lock_server_cache_rsm.cc. Its children: Queue (one queue for each lock),
-- Calls (what each call does, sequences of calls, and the abstract server), Exclusion (who holds a
-- lock), Order (the order of the clients) and Repeats (requests that come again or late).
-- Transfer there is about marshalling the state into another server, MapOrder and Joining about the
-- maps staying in order and a new replica. Base/Ordered: maps in key order.
-- Rpc/Marshall: the operators of rpc/marshall.h and rpc/rpc.cc, with RoundTrip for reading back.
-- Config: class config, with Config/Text for the text of a view, Config/Views for the current view
-- and its changes, and Config/Heartbeats for the nodes that are removed.
-- Extent, Extent/Server: the extent server, with Extent/Server/Contents for what it holds.
-- Rpc/Client, Rpc/Server: class rpcc and class rpcs of rpc/rpc.cc, the calls of a client with its
-- window of the replies that it has had (Rpc/Client/Compress, Rpc/Client/Window, Rpc/Client/Calls),
-- and the windows of replies of the server (Rpc/Server/Acked, Rpc/Server/Window, Rpc/Server/Check,
-- Rpc/Server/Dispatch). Rpc/System puts a client and the server together, with the headers that
-- were sent arriving in any order and any number of times (its parts are the invariant of
-- Rpc/System/Requests and Rpc/System/Invariant, and Once and Replies for what follows from it), and
-- Rpc/Numbers has ascending lists of numbers.
-- Extent/Client: class extent_client, with Extent/Client/Coherence for the contents that the cache
-- and the server hold together, Extent/Client/View for get, Extent/Client/Writes for the calls that
-- change them, and Extent/Client/Refinement for any sequence of calls.
-- Yfs: class yfs_client, with Yfs/Extents for the operations and laws of the extents that it works
-- on and Yfs/Extents/Cache for extent_client.cc as such, Yfs/Names for the text of a directory (its
-- words, its entries, what unlink writes), and Yfs/Client for the operations on the content of a
-- file (Strings, Content, Files) and on a directory (Directory, Unlink).
-- Locks/CachingClient: class lock_client_cache_rsm, with Locks/CachingClient/Statuses for the status
-- of a lock, Locks/CachingClient/Threads for the threads of a client in any order,
-- Locks/CachingClient/Phases and Locks/CachingClient/Exclusion for who holds a lock, and
-- Locks/CachingClient/Stranded for a retry request that no thread waits for.
-- Rsm/Client: class rsm_client, with Rsm/Client/Failover for how it gets from one primary to the
-- next.
-- Rsm/Joining: join, joinreq and sync_with_primary of class rsm, with the view layer.
-- Locks/SimpleServer: class lock_server, with Locks/SimpleServer/FirstCall for the first call of a
-- lock.
--
-- State and calls. A class is a record, a method is a function from the record to the new record
-- and its result, and a call of another component is recorded in the result or taken as an
-- argument. Code that runs under one mutex from its entry to its return is one step, and code
-- that releases it for a call in between is cut there (cfg->paxos_commit after a commit is one of
-- the calls that acceptors record, and the numbers of the caching client's RPCs are taken in steps
-- of their own). rsm::client_invoke is one step too: the primary's view, its stamp and what
-- amiprimary reads are supposed not to change during its calls. `unsigned` counters wrap at 2 ^ 32 where the code adds to them. A failed VERIFY ends the process: its
-- result is `none`, or `fault` in the log reader.
--
-- Fuel. The loops of log::logread and config::members take fuel, one more than the length of the
-- text; each round reads at least one character of a word, so it is enough. That of setsize takes
-- one more than the size, which it cannot pass.
--
-- Not modelled: the sockets, threads and timers of the RPC library under rpc/, FUSE (fuse.cc), the
-- caching lock client and server without replication, the handles of handle.cc, the test programs,
-- and printing. What an RPC brings back is an argument of the model, or that of the server's model
-- where the two are put together.
pub mod Base
pub mod Paxos
pub mod Rpc
pub mod Config
pub mod Extent
pub mod Rsm
pub mod Locks
pub mod Yfs
pub mod Tests
