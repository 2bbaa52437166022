-- ===== src/Locks/CachingClient/Threads.antt =====
-- The threads of one client of lock_client_cache_rsm.cc at one lock, as steps in any order.
use distributed_system_lab.Base.{ℕ, ◌≡◌, ◌≢◌, Bool, true, false, some, [], nat_eq, if◌then◌else◌}
use distributed_system_lab.Locks.{Status, ok, retry}
use distributed_system_lab.Locks.CachingClient.{
  LockClient, next_xid, Acquire, waits, sends, acquired, acquire_begin, acquire_retry,
  acquire_reply, release, retry_handler, returns, releaser_begin, releaser_end,
}

-- Where a thread is: outside, in an acquire RPC, in the inner wait of acquire, or behind acquire.
pub data Phase : Type 0 where
  outside calling waiting holding : Phase

-- `owned` is whether the server has granted the lock to the client and no release was sent since;
-- `releasing` is whether the releaser is in its RPC for this lock.
pub record Threads : Type 0 where
  pub client : LockClient
  pub phase : ℕ → Phase
  pub releasing : Bool
  pub owned : Bool

abbrev pub moved : (ℕ → Phase) → ℕ → Phase → ℕ → Phase
moved f i p j = if nat_eq i j then p else f j

-- What the client does at another lock.
pub data Elsewhere (c : LockClient) (k : ℕ) : LockClient → Type 0 where
  acquires : Elsewhere c k (acquire_begin c k).0
  hears :
      (r : Status) (d : LockClient) (a : Acquire)
      → acquire_reply c k r ≡ some (d, a)
      → Elsewhere c k d
  tries : Elsewhere c k (acquire_retry c k).0
  releases_it : Elsewhere c k (release c k).0
  is_told : Elsewhere c k (retry_handler c k).0
  gives_up : Elsewhere c k (releaser_begin c k).0
  gave_up : Elsewhere c k (releaser_end c k)

-- A thread calls release only when it holds the lock.
pub data Step (lid : ℕ) (s : Threads) : Threads → Type 0 where
  begins :
      (i : ℕ) (d : LockClient)
      → s.phase i ≡ outside
      → acquire_begin s.client lid ≡ (d, sends)
      → Step lid s (record s { client = d; phase = moved s.phase i calling })
  takes :
      (i : ℕ) (d : LockClient)
      → s.phase i ≡ outside
      → acquire_begin s.client lid ≡ (d, acquired)
      → Step lid s (record s { client = d; phase = moved s.phase i holding })
  granted :
      (i : ℕ) (d : LockClient)
      → s.phase i ≡ calling
      → acquire_reply s.client lid ok ≡ some (d, acquired)
      → Step lid s (record s { client = d; phase = moved s.phase i holding; owned = true })
  put_off :
      (i : ℕ) (d : LockClient)
      → s.phase i ≡ calling
      → acquire_reply s.client lid retry ≡ some (d, waits)
      → Step lid s (record s { client = d; phase = moved s.phase i waiting })
  calls_again :
      (i : ℕ) (d : LockClient)
      → s.phase i ≡ calling
      → acquire_reply s.client lid retry ≡ some (d, sends)
      → Step lid s (record s { client = d; phase = moved s.phase i calling })
  resumes :
      (i : ℕ) (d : LockClient)
      → s.phase i ≡ waiting
      → acquire_retry s.client lid ≡ (d, sends)
      → Step lid s (record s { client = d; phase = moved s.phase i calling })
  leaves :
      (i : ℕ)
      → s.phase i ≡ holding
      → Step lid s (record s { client = (release s.client lid).0; phase = moved s.phase i outside })
  hands_back :
      (d : LockClient)
      → s.releasing ≡ false
      → releaser_begin s.client lid ≡ (d, returns)
      → Step lid s (record s { client = d; releasing = true; owned = false })
  handed_back :
      s.releasing ≡ true
      → Step lid s (record s { client = releaser_end s.client lid; releasing = false })
  -- Some call, for this lock or another one, takes its number.
  numbers : Step lid s (record s { client = (next_xid s.client).0 })
  told : Step lid s (record s { client = (retry_handler s.client lid).0 })
  elsewhere :
      (k : ℕ) (d : LockClient)
      → k ≢ lid
      → Elsewhere s.client k d
      → Step lid s (record s { client = d })

pub data Reach (lid : ℕ) (s : Threads) : Threads → Type 0 where
  here : Reach lid s s
  next : {t u : Threads} → Reach lid s t → Step lid t u → Reach lid s u

-- A client that has just been made.
pub record IsStart (lid : ℕ) (s : Threads) : Type 0 where
  pub empty : s.client.lock_status_list ≡ []
  pub all_outside : (i : ℕ) → s.phase i ≡ outside
  pub no_rpc : s.releasing ≡ false
