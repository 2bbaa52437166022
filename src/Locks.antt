-- ===== src/Locks.antt =====
-- The lock servers and clients. `Status` is lock_protocol::xxstatus of lock_protocol.h; lock and transaction
-- numbers are 64-bit, client numbers and counters are the bit patterns of an int.
pub mod ReplicatedServer
pub mod CachingClient
pub mod SimpleServer
use distributed_system_lab.Base.{ℕ}

pub data Status : Type 0 where
  ok retry rpcerr noent ioerr : Status
