-- ===== src/Locks/CachingClient/Statuses.antt =====
-- What the parts of the methods of lock_client_cache_rsm.cc do to the status of a lock.
use distributed_system_lab.Base.{ℕ, ◌≡◌, ◌≢◌, refl, sym, ap, ◌∙◌, Option, some, arith}
use distributed_system_lab.Base.Tests.{nat_key}
use distributed_system_lab.Base.Map.{or_else, lookup-insert, lookup-insert_self}
use distributed_system_lab.Locks.{Status, ok, retry, rpcerr, noent, ioerr}
use distributed_system_lab.Locks.CachingClient.{
  LockStatus, is_none, is_free, is_locked, is_acquiring, is_releasing, is_retry, LockClient, status,
  set_status, next_xid, Acquire, sends, acquired, acquire_begin, acquire_retry, acquire_reply,
  release, retry_handler, returns, releaser_begin, releaser_end,
}
use distributed_system_lab.Locks.CachingClient.Threads.{
  Elsewhere, acquires, hears, tries, releases_it, is_told, gives_up, gave_up,
}

pub status-set_status :
    (c : LockClient) (lid : ℕ) (st : LockStatus) → status (set_status c lid st) lid ≡ st
unfolding status set_status
status-set_status c lid st =
    ap (λ (o : Option LockStatus). or_else o is_none) (lookup-insert_self lid st c.lock_status_list)

status_elsewhere :
    (c : LockClient) (k lid : ℕ) (st : LockStatus)
    → k ≢ lid
    → status (set_status c k st) lid ≡ status c lid
unfolding status set_status
status_elsewhere c k lid st ne = ground (arith, lookup-insert k lid st c.lock_status_list)

pub next_xid-status : (c : LockClient) (lid : ℕ) → status (next_xid c).0 lid ≡ status c lid
unfolding next_xid status
next_xid-status c lid = refl

pub begin-sends :
    (c d : LockClient) (lid : ℕ)
    → acquire_begin c lid ≡ (d, sends)
    → (status c lid ≡ is_none) × (status d lid ≡ is_acquiring)
begin-sends c d lid e = go (status c lid) refl
  where
    same : status (set_status c lid is_acquiring) lid ≡ is_acquiring
    same = status-set_status c lid is_acquiring

    go :
        (st : LockStatus)
        → status c lid ≡ st
        → (status c lid ≡ is_none) × (status d lid ≡ is_acquiring)
    go is_none k = (k, unfold acquire_begin status set_status in ground (arith, e, k, same))
    go is_free k = absurd (unfold acquire_begin in ground (arith, e, k))
    go is_locked k = absurd (unfold acquire_begin in ground (arith, e, k))
    go is_acquiring k = absurd (unfold acquire_begin in ground (arith, e, k))
    go is_releasing k = absurd (unfold acquire_begin in ground (arith, e, k))
    go is_retry k = absurd (unfold acquire_begin in ground (arith, e, k))

pub begin-acquired :
    (c d : LockClient) (lid : ℕ)
    → acquire_begin c lid ≡ (d, acquired)
    → (status c lid ≡ is_free) × (status d lid ≡ is_locked)
begin-acquired c d lid e = go (status c lid) refl
  where
    same : status (set_status c lid is_locked) lid ≡ is_locked
    same = status-set_status c lid is_locked

    go :
        (st : LockStatus)
        → status c lid ≡ st
        → (status c lid ≡ is_free) × (status d lid ≡ is_locked)
    go is_free k = (k, unfold acquire_begin status set_status in ground (arith, e, k, same))
    go is_none k = absurd (unfold acquire_begin in ground (arith, e, k))
    go is_locked k = absurd (unfold acquire_begin in ground (arith, e, k))
    go is_acquiring k = absurd (unfold acquire_begin in ground (arith, e, k))
    go is_releasing k = absurd (unfold acquire_begin in ground (arith, e, k))
    go is_retry k = absurd (unfold acquire_begin in ground (arith, e, k))

pub releaser-returns :
    (c d : LockClient) (lid : ℕ)
    → releaser_begin c lid ≡ (d, returns)
    → (status c lid ≡ is_free) × (status d lid ≡ is_releasing)
releaser-returns c d lid e = go (status c lid) refl
  where
    same : status (set_status c lid is_releasing) lid ≡ is_releasing
    same = status-set_status c lid is_releasing

    go :
        (st : LockStatus)
        → status c lid ≡ st
        → (status c lid ≡ is_free) × (status d lid ≡ is_releasing)
    go is_free k = (k, unfold releaser_begin status set_status in ground (arith, e, k, same))
    go is_none k = absurd (unfold releaser_begin in ground (arith, e, k))
    go is_locked k = absurd (unfold releaser_begin in ground (arith, e, k))
    go is_acquiring k = absurd (unfold releaser_begin in ground (arith, e, k))
    go is_releasing k = absurd (unfold releaser_begin in ground (arith, e, k))
    go is_retry k = absurd (unfold releaser_begin in ground (arith, e, k))

pub acquire_retry-status :
    (c : LockClient) (k lid : ℕ) → status (acquire_retry c k).0 lid ≡ status c lid
acquire_retry-status c k lid = go (status c k) refl
  where
    go : (st : LockStatus) → status c k ≡ st → status (acquire_retry c k).0 lid ≡ status c lid
    go st e = unfold acquire_retry status in ground (arith, e)

-- What is done at another lock leaves the status.
begin-elsewhere :
    (c : LockClient) (k lid : ℕ) → k ≢ lid → status (acquire_begin c k).0 lid ≡ status c lid
begin-elsewhere c k lid ne = go (status c k) refl
  where
    locked : status (set_status c k is_locked) lid ≡ status c lid
    locked = status_elsewhere c k lid is_locked ne

    asking : status (set_status c k is_acquiring) lid ≡ status c lid
    asking = status_elsewhere c k lid is_acquiring ne

    go : (st : LockStatus) → status c k ≡ st → status (acquire_begin c k).0 lid ≡ status c lid
    go st e = unfold acquire_begin status set_status in ground (arith, e, locked, asking)

releaser-elsewhere :
    (c : LockClient) (k lid : ℕ) → k ≢ lid → status (releaser_begin c k).0 lid ≡ status c lid
releaser-elsewhere c k lid ne = go (status c k) refl
  where
    same : status (set_status c k is_releasing) lid ≡ status c lid
    same = status_elsewhere c k lid is_releasing ne

    go : (st : LockStatus) → status c k ≡ st → status (releaser_begin c k).0 lid ≡ status c lid
    go st e = unfold releaser_begin status set_status in ground (arith, e, same)

reply-elsewhere :
    (c d : LockClient) (k lid : ℕ) (r : Status) (a : Acquire)
    → k ≢ lid
    → acquire_reply c k r ≡ some (d, a)
    → status d lid ≡ status c lid
reply-elsewhere c d k lid ok a ne e =
    let same : set_status c k is_locked ≡ d = unfold acquire_reply in ground (arith, e) in
    ap (λ (x : LockClient). status x lid) (sym same) ∙ status_elsewhere c k lid is_locked ne
reply-elsewhere c d k lid retry a ne e =
    let same : (acquire_retry c k).0 ≡ d = unfold acquire_reply in ground (arith, e) in
    ap (λ (x : LockClient). status x lid) (sym same) ∙ acquire_retry-status c k lid
reply-elsewhere c d k lid rpcerr a ne e = absurd (unfold acquire_reply in ground (arith, e))
reply-elsewhere c d k lid noent a ne e = absurd (unfold acquire_reply in ground (arith, e))
reply-elsewhere c d k lid ioerr a ne e = absurd (unfold acquire_reply in ground (arith, e))

pub Elsewhere-status :
    (c : LockClient) (k lid : ℕ) (d : LockClient)
    → k ≢ lid
    → Elsewhere c k d
    → status d lid ≡ status c lid
Elsewhere-status c k lid d ne acquires = begin-elsewhere c k lid ne
Elsewhere-status c k lid d ne (hears r x a e) = reply-elsewhere c x k lid r a ne e
Elsewhere-status c k lid d ne tries = acquire_retry-status c k lid
Elsewhere-status c k lid d ne releases_it = unfold release in status_elsewhere c k lid is_free ne
Elsewhere-status c k lid d ne is_told = unfold retry_handler in status_elsewhere c k lid is_retry ne
Elsewhere-status c k lid d ne gives_up = releaser-elsewhere c k lid ne
Elsewhere-status c k lid d ne gave_up = unfold releaser_end in status_elsewhere c k lid is_none ne

-- The replies at the lock itself.
pub reply-granted :
    (c d : LockClient) (lid : ℕ)
    → acquire_reply c lid ok ≡ some (d, acquired)
    → status d lid ≡ is_locked
reply-granted c d lid e =
    let same : set_status c lid is_locked ≡ d = unfold acquire_reply in ground (arith, e) in
    ap (λ (x : LockClient). status x lid) (sym same) ∙ status-set_status c lid is_locked

pub reply-retry :
    (c d : LockClient) (lid : ℕ) (a : Acquire)
    → acquire_reply c lid retry ≡ some (d, a)
    → status d lid ≡ status c lid
reply-retry c d lid a e =
    let same : (acquire_retry c lid).0 ≡ d = unfold acquire_reply in ground (arith, e) in
    ap (λ (x : LockClient). status x lid) (sym same) ∙ acquire_retry-status c lid lid

pub retry-sends :
    (c d : LockClient) (lid : ℕ) → acquire_retry c lid ≡ (d, sends) → status d lid ≡ status c lid
retry-sends c d lid e =
    let same : (acquire_retry c lid).0 ≡ d = ground (arith, e) in
    ap (λ (x : LockClient). status x lid) (sym same) ∙ acquire_retry-status c lid lid
