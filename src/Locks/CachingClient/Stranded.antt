-- ===== src/Locks/CachingClient/Stranded.antt =====
-- What becomes of a lock of lock_client_cache_rsm.cc when a retry request comes and no thread waits
-- for one.
use distributed_system_lab.Base.{ℕ, ◌≡◌, ◌∙◌, false, arith}
use distributed_system_lab.Locks.CachingClient.{is_retry, status, retry_handler}
use distributed_system_lab.Locks.CachingClient.Statuses.{
  status-set_status, begin-sends, begin-acquired, releaser-returns, next_xid-status,
  Elsewhere-status,
}
use distributed_system_lab.Locks.CachingClient.Threads.{
  outside, Threads, Step, begins, takes, granted, put_off, calls_again, resumes, leaves, hands_back,
  handed_back, numbers, told, elsewhere, Reach, here, next,
}

record Stuck (lid : ℕ) (s : Threads) : Type 0 where
  retrying : status s.client lid ≡ is_retry
  all_outside : (i : ℕ) → s.phase i ≡ outside
  no_rpc : s.releasing ≡ false

Step-Stuck : (lid : ℕ) {s t : Threads} → Step lid s t → Stuck lid s → Stuck lid t
Step-Stuck lid {s} (begins i d p e) k =
    absurd (ground (arith, k.retrying, (begin-sends s.client d lid e).0))
Step-Stuck lid {s} (takes i d p e) k =
    absurd (ground (arith, k.retrying, (begin-acquired s.client d lid e).0))
Step-Stuck lid {s} (granted i d p e) k = absurd (ground (arith, p, k.all_outside i))
Step-Stuck lid {s} (put_off i d p e) k = absurd (ground (arith, p, k.all_outside i))
Step-Stuck lid {s} (calls_again i d p e) k = absurd (ground (arith, p, k.all_outside i))
Step-Stuck lid {s} (resumes i d p e) k = absurd (ground (arith, p, k.all_outside i))
Step-Stuck lid {s} (leaves i p) k = absurd (ground (arith, p, k.all_outside i))
Step-Stuck lid {s} (hands_back d q e) k =
    absurd (ground (arith, k.retrying, (releaser-returns s.client d lid e).0))
Step-Stuck lid {s} (handed_back q) k = absurd (ground (arith, q, k.no_rpc))
Step-Stuck lid {s} numbers k = record {
  retrying = next_xid-status s.client lid ∙ k.retrying;
  all_outside = k.all_outside;
  no_rpc = k.no_rpc;
}
Step-Stuck lid {s} told k = record {
  retrying = unfold retry_handler in status-set_status s.client lid is_retry;
  all_outside = k.all_outside;
  no_rpc = k.no_rpc;
}
Step-Stuck lid {s} (elsewhere j d ne o) k = record {
  retrying = Elsewhere-status s.client j lid d ne o ∙ k.retrying;
  all_outside = k.all_outside;
  no_rpc = k.no_rpc;
}

Reach-Stuck : (lid : ℕ) {s t : Threads} → Stuck lid s → Reach lid s t → Stuck lid t
Reach-Stuck lid k here = k
Reach-Stuck lid k (next r x) = Step-Stuck lid x (Reach-Stuck lid k r)

-- When a retry request for a lock comes while every thread is outside and no release is on its way,
-- no thread of the client ever gets into an acquire RPC for the lock or gets it again, and
-- the releaser never gives it back, whatever steps follow.
pub retry_handler-strands :
    (lid : ℕ) (s t : Threads)
    → ((i : ℕ) → s.phase i ≡ outside)
    → s.releasing ≡ false
    → Reach lid (record s { client = (retry_handler s.client lid).0 }) t
    → ((i : ℕ) → t.phase i ≡ outside) × (t.releasing ≡ false)
retry_handler-strands lid s t out quiet r = (k.all_outside, k.no_rpc)
  where
    now : status (retry_handler s.client lid).0 lid ≡ is_retry
    now = unfold retry_handler in status-set_status s.client lid is_retry

    k : Stuck lid t
    k = Reach-Stuck lid (record { retrying = now; all_outside = out; no_rpc = quiet }) r
