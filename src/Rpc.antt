-- ===== src/Rpc.antt =====
-- The RPC library under rpc/, as far as it is modelled.
pub mod Marshall
pub mod Numbers
pub mod Client
pub mod Server
pub mod System
