-- ===== src/Locks/SimpleServer.antt =====
-- `class lock_server` of lock_server.h and lock_server.cc. acquire is cut at its wait: what comes
-- before and the test after it are functions. nacquire is the bit pattern of an int.
pub mod FirstCall
use distributed_system_lab.Base.{
  ℕ, ◌+◌, ◌-◌, ◌%◌, ◌^◌, Bool, true, false, Option, none, some, List, [], if◌then◌else◌,
}
use distributed_system_lab.Base.Tests.{nat_key}
use distributed_system_lab.Base.Map.{Map, lookup, insert}

pub record SimpleServer : Type 0 where
  pub nacquire : ℕ
  pub lock_list : Map ℕ Bool

unfoldable pub lock_server : SimpleServer
lock_server = record { nacquire = 0; lock_list = [] }

-- `end_read` is a read through the iterator that is the end of the map: the lock is new, and the
-- iterator stays where find has left it.
pub data Outcome : Type 0 where
  end_read : Outcome
  waits : SimpleServer → Outcome
  returns : SimpleServer → Outcome

unfoldable pub set_lock : SimpleServer → ℕ → Bool → SimpleServer
set_lock s lid held = record s { lock_list = insert lid held s.lock_list }

-- The loop's test, at the first time and after each wait.
unfoldable pub acquire_test : SimpleServer → ℕ → Outcome
unfolding set_lock
acquire_test s lid = elim (lookup lid s.lock_list) [
  | none ↦ end_read
  | some held ↦ if held then waits s else returns (set_lock s lid true)
]

unfoldable pub acquire : SimpleServer → ℕ → Outcome
unfolding acquire_test
acquire s lid = acquire_test (record s { nacquire = (s.nacquire + 1) % 2 ^ 32 }) lid

unfoldable pub release : SimpleServer → ℕ → Outcome
unfolding set_lock
release s lid = elim (lookup lid s.lock_list) [
  | none ↦ end_read
  | some held ↦
      returns (set_lock (record s { nacquire = (s.nacquire + 2 ^ 32 - 1) % 2 ^ 32 }) lid false)
]

unfoldable pub stat : SimpleServer → ℕ
stat s = s.nacquire
