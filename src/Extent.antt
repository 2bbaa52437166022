-- ===== src/Extent.antt =====
-- The extent service: extent_protocol.h and extent_server.cc.
pub mod Server
pub mod Client
use distributed_system_lab.Base.{ℕ}

-- extent_protocol::attr
pub record Attr : Type 0 where
  pub atime : ℕ
  pub mtime : ℕ
  pub ctime : ℕ
  pub size : ℕ

-- extent_protocol::xxstatus
pub data Status : Type 0 where
  ok rpcerr noent ioerr : Status
