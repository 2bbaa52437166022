-- ===== src/Tests/LockClient.antt =====
-- A lock that two threads of a client of lock_client_cache_rsm.cc use.
use distributed_system_lab.Base.{ℕ, ◌≡◌, refl, true, false, some, [], ◌∷◌}
use distributed_system_lab.Base.Tests.{nat_key}
use distributed_system_lab.Base.Map.{lookup, insert}
use distributed_system_lab.Locks.{ok}
use distributed_system_lab.Locks.CachingClient.{
  is_acquiring, is_locked, is_free, LockClient, lock_client_cache_rsm, status, set_status, next_xid,
  sends, acquired, acquire_begin, acquire_reply, retry_handler,
}
use distributed_system_lab.Locks.CachingClient.Threads.{
  outside, calling, holding, Threads, moved, begins, numbers, granted, told, Reach, here, next,
  IsStart,
}
use distributed_system_lab.Locks.CachingClient.Exclusion.{one_holder}
use distributed_system_lab.Locks.CachingClient.Stranded.{retry_handler-strands}

abbrev start : Threads
start = record {
  client = lock_client_cache_rsm;
  phase = λ i. outside;
  releasing = false;
  owned = false;
}

start-IsStart : IsStart 5 start
start-IsStart = record {
  empty = unfold lock_client_cache_rsm in refl;
  all_outside = λ i. refl;
  no_rpc = refl;
}

abbrev asking : LockClient
asking = record { lock_status_list = (5, is_acquiring) ∷ []; xid = 0 }

abbrev numbered : LockClient
numbered = record { lock_status_list = (5, is_acquiring) ∷ []; xid = 1 }

abbrev locked : LockClient
locked = record { lock_status_list = (5, is_locked) ∷ []; xid = 1 }

asks : acquire_begin lock_client_cache_rsm 5 ≡ (asking, sends)
unfolding acquire_begin status set_status lookup insert lock_client_cache_rsm
asks = refl

takes_number : next_xid asking ≡ (numbered, 1)
unfolding next_xid
takes_number = refl

gets : acquire_reply numbered 5 ok ≡ some (locked, acquired)
unfolding acquire_reply set_status insert
gets = refl

abbrev called : Threads
called = record start { client = asking; phase = moved start.phase 1 calling }

abbrev held : Threads
held = record called { client = locked; phase = moved called.phase 1 holding; owned = true }

held-Reach : Reach 5 start held
unfolding next_xid
held-Reach =
    next (next (next here (begins 1 asking refl asks)) numbers) (granted 1 locked refl gets)

one_holder_example :
    ((j : ℕ) → held.phase j ≡ holding → 1 ≡ j) × (held.owned ≡ true) × (held.releasing ≡ false)
one_holder_example = one_holder 5 start held 1 start-IsStart held-Reach refl

-- The thread has released the lock, which the client keeps.
abbrev freed : Threads
freed = record start {
  client = record { lock_status_list = (5, is_free) ∷ []; xid = 1 };
  owned = true;
}

abbrev retried : Threads
retried = record freed { client = (retry_handler freed.client 5).0 }

retry_handler-strands_example :
    ((i : ℕ) → (record retried { client = (retry_handler retried.client 5).0 }).phase i ≡ outside)
    × ((record retried { client = (retry_handler retried.client 5).0 }).releasing ≡ false)
retry_handler-strands_example =
    retry_handler-strands 5 freed (record retried { client = (retry_handler retried.client 5).0 })
      (λ i. refl) refl (next here told)
