-- ===== src/Rsm/StateTransfer.antt =====
-- What rsm.cc asks of the state machine that it replicates: the registered procedures behind
-- `rsm::execute`, and the interface rsm_state_transfer.h.
use distributed_system_lab.Base.{ℕ, Option}
use distributed_system_lab.Base.Bytes.{Bytes}

-- A procedure reads a marshalled request, and returns the new state and the marshalled reply.
pub record Machine (S : Type 0) : Type 0 where
  pub procedure : ℕ → Bytes → S → Option (S × Bytes)
  pub marshal_state : S → Bytes
  pub unmarshal_state : Bytes → S → S
