-- ===== src/Locks/CachingClient.antt =====
-- `class lock_client_cache_rsm` of lock_client_cache_rsm.h and lock_client_cache_rsm.cc. A method
-- is cut where it releases the mutex, around an RPC or a wait: each part is a function, and a wait
-- is a result that the caller tries again. The number of an RPC is taken after the mutex has been
-- released, by next_xid as a part of its own. Condition variables carry no state of their own.
pub mod Threads
pub mod Statuses
pub mod Phases
pub mod Exclusion
pub mod Stranded
use distributed_system_lab.Base.{ℕ, ◌+◌, ◌%◌, ◌^◌, Bool, true, false, Option, none, some, List, []}
use distributed_system_lab.Base.Tests.{nat_key}
use distributed_system_lab.Base.Map.{Map, lookup, insert, or_else}
use distributed_system_lab.Locks.{Status, ok, retry, rpcerr, noent, ioerr}

-- lock_status, with its prefix.
pub data LockStatus : Type 0 where
  is_none is_free is_locked is_acquiring is_releasing is_retry : LockStatus

pub record LockClient : Type 0 where
  pub lock_status_list : Map ℕ LockStatus
  pub xid : ℕ

unfoldable pub lock_client_cache_rsm : LockClient
lock_client_cache_rsm = record { lock_status_list = []; xid = 0 }

-- The read lock_status_list[lid].
unfoldable pub status : LockClient → ℕ → LockStatus
status c lid = or_else (lookup lid c.lock_status_list) is_none

unfoldable pub set_status : LockClient → ℕ → LockStatus → LockClient
set_status c lid st = record c { lock_status_list = insert lid st c.lock_status_list }

-- ++xid among the arguments of an RPC, and the number that it gives.
unfoldable pub next_xid : LockClient → LockClient × ℕ
next_xid c = let n = (c.xid + 1) % 2 ^ 64 in (record c { xid = n }, n)

-- How a part of acquire ends: it waits, it releases the mutex to send an acquire, or it returns OK.
pub data Acquire : Type 0 where
  waits sends acquired : Acquire

-- acquire up to its RPC or its return.
unfoldable pub acquire_begin : LockClient → ℕ → LockClient × Acquire
unfolding status set_status
acquire_begin c lid = elim (status c lid) [
  | is_none ↦ (set_status c lid is_acquiring, sends)
  | is_free ↦ (set_status c lid is_locked, acquired)
  | is_locked ↦ (c, waits)
  | is_acquiring ↦ (c, waits)
  | is_releasing ↦ (c, waits)
  | is_retry ↦ (c, waits)
]

-- The test of the inner wait, and the RPC after it.
unfoldable pub acquire_retry : LockClient → ℕ → LockClient × Acquire
unfolding status
acquire_retry c lid = elim (status c lid) [
  | is_retry ↦ (c, sends)
  | is_none ↦ (c, waits)
  | is_free ↦ (c, waits)
  | is_locked ↦ (c, waits)
  | is_acquiring ↦ (c, waits)
  | is_releasing ↦ (c, waits)
]

-- acquire when its RPC has returned; `none` is a failed VERIFY.
unfoldable pub acquire_reply : LockClient → ℕ → Status → Option (LockClient × Acquire)
unfolding set_status acquire_retry
acquire_reply c lid ok = some (set_status c lid is_locked, acquired)
acquire_reply c lid retry = some (acquire_retry c lid)
acquire_reply c lid rpcerr = none
acquire_reply c lid noent = none
acquire_reply c lid ioerr = none

unfoldable pub release : LockClient → ℕ → LockClient × Status
unfolding set_status
release c lid = (set_status c lid is_free, ok)

-- revoke_handler wakes the releaser.
unfoldable pub revoke_handler : LockClient → ℕ → LockClient × Status
revoke_handler c lid = (c, ok)

unfoldable pub retry_handler : LockClient → ℕ → LockClient × Status
unfolding set_status
retry_handler c lid = (set_status c lid is_retry, ok)

-- How the releaser deals with a lock: it waits, it releases the mutex to send a release, or it goes
-- on.
pub data Release : Type 0 where
  held_up returns skips : Release

-- releaser at one lock, up to its RPC.
unfoldable pub releaser_begin : LockClient → ℕ → LockClient × Release
unfolding status set_status
releaser_begin c lid = elim (status c lid) [
  | is_free ↦ (set_status c lid is_releasing, returns)
  | is_none ↦ (c, skips)
  | is_locked ↦ (c, held_up)
  | is_acquiring ↦ (c, held_up)
  | is_releasing ↦ (c, held_up)
  | is_retry ↦ (c, held_up)
]

-- releaser when the RPC has returned OK.
unfoldable pub releaser_end : LockClient → ℕ → LockClient
unfolding set_status
releaser_end c lid = set_status c lid is_none
