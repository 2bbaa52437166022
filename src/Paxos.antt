-- ===== src/Paxos.antt =====
-- The consensus layer: paxos.h, paxos.cc, paxos_protocol.h, log.h and log.cc.
pub mod Proposal
pub mod State
pub mod Log
pub mod Acceptor
pub mod Members
pub mod Proposer
pub mod Agreement
