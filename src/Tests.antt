-- ===== src/Tests.antt =====
-- Concrete inputs: tests of the definitions, and each theorem with hypotheses at an input that
-- meets them.
mod Paxos
mod Agreement
mod Proposer
mod Rsm
mod Locks
mod Marshall
mod Config
mod Extent
mod Rpc
mod ExtentClient
mod Yfs
mod LockClient
mod RsmClient
