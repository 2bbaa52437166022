-- ===== src/Paxos/State.antt =====
-- The state of `class acceptor` in paxos.h.
use distributed_system_lab.Base.{ℕ, Bool, List}
use distributed_system_lab.Base.Bytes.{Bytes}
use distributed_system_lab.Base.Map.{Map}
use distributed_system_lab.Paxos.Proposal.{PropT}

-- `file` is the content of the log file. `upcalls` are the calls of `cfg->paxos_commit` that the
-- commits give rise to, in the order of the commits. The code makes such a call after it has
-- released the mutex, so that the view layer may hear of them in another order.
pub record Acceptor : Type 0 where
  pub me : Bytes
  pub has_cfg : Bool
  pub n_h : PropT
  pub n_a : PropT
  pub v_a : Bytes
  pub instance_h : ℕ
  pub values : Map ℕ Bytes
  pub file : Bytes
  pub upcalls : List (ℕ × Bytes)
