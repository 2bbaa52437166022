-- ===== src/Locks/ReplicatedServer/Calls.antt =====
-- What each call of lock_server_cache_rsm.cc does to the queues, the locks and the transaction
-- numbers, and sequences of calls.
use distributed_system_lab.Base.{
  ℕ, ◌+◌, ◌-◌, ◌%◌, ◌^◌, ◌≡◌, refl, sym, ◌∙◌, Bool, true, false, not, ◌&&◌, List, [], ◌∷◌, ltb,
  nat_eq, if◌then◌else◌, arith,
}
use distributed_system_lab.Base.Tests.{nat_key}
use distributed_system_lab.Base.Bytes.{Bytes, bytes_key}
use distributed_system_lab.Base.Map.{
  Map, lookup, index, or_else, lookup-insert, or_else-lookup-index, index-value,
}
use distributed_system_lab.Locks.{ok, retry}
use distributed_system_lab.Locks.ReplicatedServer.{
  LockServer, write_xid, read_xid, enter_client, enqueue, acquire, dequeue, release, revoke_each,
  revoker, retry_each, retryer,
}
use distributed_system_lab.Locks.ReplicatedServer.Queue.{
  queue, taken, last_xid, join, leave, heads, enqueue-join, xid_in, xid_in-write_xid,
  read_xid-value, xid_in-read_xid, xid_in-enter_client,
}

-- The transaction number that a call compares with, and whether the call is newer.
abbrev pub newer : LockServer → ℕ → ℕ → ℕ → Bool
newer s clt lid xid = ltb (last_xid s clt lid) xid

-- What acquire comes to, in terms of the queues.
pub acquire-effect :
    (s : LockServer) (clt lid : ℕ) (dst : Bytes) (xid r : ℕ)
    → let a = acquire s clt lid dst xid r in
      let fresh = newer s clt lid xid in
      ((j : ℕ)
        → queue a.server j ≡ (if fresh && nat_eq lid j then join dst (queue s j) else queue s j))
      × ((j : ℕ)
          → taken a.server j ≡ (
              if fresh && nat_eq lid j && heads dst (join dst (queue s j))
              then true
              else taken s j))
      × ((c l : ℕ) → last_xid a.server c l ≡ last_xid s c l)
      × (a.status ≡ (if fresh && not (heads dst (join dst (queue s lid))) then retry else ok))
unfolding acquire queue taken last_xid
acquire-effect s clt lid dst xid r = (
  λ j. ground (
    arith,
    same_xid,
    joined,
    lookup-insert lid j (enqueue dst (queue s lid)).0 s.lock_client_list,
  ),
  λ j. ground (arith, same_xid, joined, lookup-insert lid j true s.locks),
  λ c l. ground (arith, same_xids c l),
  ground (arith, same_xid, joined),
)
  where
    ids : Map ℕ (Map ℕ ℕ)
    ids = enter_client clt lid s.client_lock_id

    same_xid : (read_xid clt lid ids).0 ≡ last_xid s clt lid
    same_xid = read_xid-value ids clt lid ∙ xid_in-enter_client s.client_lock_id clt lid clt lid

    same_xids : (c l : ℕ) → xid_in (read_xid clt lid ids).1 c l ≡ last_xid s c l
    same_xids c l =
        xid_in-read_xid ids clt lid c l ∙ xid_in-enter_client s.client_lock_id clt lid c l

    joined :
        ((enqueue dst (queue s lid)).0 ≡ join dst (queue s lid))
        × (nat_eq (enqueue dst (queue s lid)).1 0 ≡ heads dst (join dst (queue s lid)))
    joined = enqueue-join dst (queue s lid)

dequeue-effect :
    (s : LockServer) (lid : ℕ) (dst : Bytes) (clients : List Bytes)
    → clients ≡ queue s lid
    → ((j : ℕ)
        → queue (dequeue s lid dst clients) j
          ≡ (if nat_eq lid j then leave dst (queue s j) else queue s j))
      × ((j : ℕ)
          → taken (dequeue s lid dst clients) j
            ≡ (if nat_eq lid j && heads dst (queue s j) then false else taken s j))
      × ((dequeue s lid dst clients).client_lock_id ≡ s.client_lock_id)
unfolding dequeue queue taken leave heads
dequeue-effect s lid dst [] e = (λ j. ground arith, λ j. ground arith, refl)
dequeue-effect s lid dst (first ∷ rest) e = (
  λ j. ground (arith, lookup-insert lid j rest s.lock_client_list),
  λ j. ground (arith, lookup-insert lid j false s.locks),
  ground arith,
)

-- What release comes to, in terms of the queues.
pub release-effect :
    (s : LockServer) (clt lid : ℕ) (dst : Bytes) (xid r : ℕ)
    → let a = release s clt lid dst xid r in
      let fresh = newer s clt lid xid in
      ((j : ℕ)
        → queue a.server j ≡ (if fresh && nat_eq lid j then leave dst (queue s j) else queue s j))
      × ((j : ℕ)
          → taken a.server j
            ≡ (if fresh && nat_eq lid j && heads dst (queue s j) then false else taken s j))
      × ((c l : ℕ)
          → last_xid a.server c l
            ≡ (if fresh && nat_eq clt c && nat_eq lid l then xid else last_xid s c l))
      × (a.status ≡ ok)
unfolding release queue taken last_xid
release-effect s clt lid dst xid r = (
  λ j. ground (arith, same_xid, dequeued.0 j, read_lists j),
  λ j. ground (arith, same_xid, dequeued.1 j, read_lists j),
  λ c l. ground (arith, same_xid, dequeued.2, same_xids c l, written c l),
  ground arith,
)
  where
    ids : Map ℕ (Map ℕ ℕ)
    ids = (read_xid clt lid s.client_lock_id).1

    lists : Map ℕ (List Bytes)
    lists = (index lid [] s.lock_client_list).1

    -- The state in which the holder is taken from the queue.
    t : LockServer
    t = record s {
      nacquire = (s.nacquire + 2 ^ 32 - 1) % 2 ^ 32;
      client_lock_id = write_xid clt lid xid ids;
      lock_client_list = lists;
    }

    same_xid : (read_xid clt lid s.client_lock_id).0 ≡ last_xid s clt lid
    same_xid = read_xid-value s.client_lock_id clt lid

    same_xids : (c l : ℕ) → xid_in ids c l ≡ last_xid s c l
    same_xids c l = xid_in-read_xid s.client_lock_id clt lid c l

    written :
        (c l : ℕ)
        → xid_in (write_xid clt lid xid ids) c l
          ≡ (if nat_eq clt c then if nat_eq lid l then xid else xid_in ids c l else xid_in ids c l)
    written c l = xid_in-write_xid ids clt lid xid c l

    read_lists : (j : ℕ) → queue t j ≡ queue s j
    read_lists j = or_else-lookup-index lid j [] s.lock_client_list

    after : LockServer
    after = dequeue t lid dst (index lid [] s.lock_client_list).0

    dequeued :
        ((j : ℕ) → queue after j ≡ (if nat_eq lid j then leave dst (queue t j) else queue t j))
        × ((j : ℕ)
            → taken after j ≡ (if nat_eq lid j && heads dst (queue t j) then false else taken t j))
        × (after.client_lock_id ≡ t.client_lock_id)
    dequeued =
        dequeue-effect t lid dst (index lid [] s.lock_client_list).0
          (index-value lid [] s.lock_client_list ∙ sym (read_lists lid))

revoke_each-lists :
    (locks : Map ℕ Bool) (lists : Map ℕ (List Bytes)) (j : ℕ)
    → or_else (lookup j (revoke_each locks lists).0) [] ≡ or_else (lookup j lists) []
unfolding revoke_each
revoke_each-lists [] lists j = refl
revoke_each-lists ((lid, b) ∷ locks) lists j =
    let next = if b then (index lid [] lists).1 else lists in
    ground (arith, revoke_each-lists locks next j, or_else-lookup-index lid j [] lists)

retry_each-lists :
    (locks : Map ℕ Bool) (lists : Map ℕ (List Bytes)) (j : ℕ)
    → or_else (lookup j (retry_each locks lists).0) [] ≡ or_else (lookup j lists) []
unfolding retry_each
retry_each-lists [] lists j = refl
retry_each-lists ((lid, b) ∷ locks) lists j =
    let next = if b then lists else (index lid [] lists).1 in
    ground (arith, retry_each-lists locks next j, or_else-lookup-index lid j [] lists)

pub data Call : Type 0 where
  acquiring releasing : (clt lid : ℕ) (dst : Bytes) (xid r : ℕ) → Call
  revoking retrying : (amiprimary : Bool) → Call

unfoldable pub call : LockServer → Call → LockServer
call s (acquiring clt lid dst xid r) = (acquire s clt lid dst xid r).server
call s (releasing clt lid dst xid r) = (release s clt lid dst xid r).server
call s (revoking amiprimary) = (revoker s amiprimary).0
call s (retrying amiprimary) = (retryer s amiprimary).0

unfoldable pub run : LockServer → List Call → LockServer
run s [] = s
run s (c ∷ cs) = run (call s c) cs

-- The abstract server: a queue and a flag for each lock, and a number for each client and lock.
pub record Table : Type 0 where
  pub queue_of : ℕ → List Bytes
  pub is_taken : ℕ → Bool
  pub xid_of : ℕ → ℕ → ℕ

-- A newer acquire joins the queue and takes the lock if it is then first; a newer release by the
-- first client leaves the queue and frees the lock; all else changes nothing.
unfoldable pub table_call : Table → Call → Table
table_call t (acquiring clt lid dst xid r) =
    let fresh = ltb (t.xid_of clt lid) xid in
    record t {
      queue_of = λ j. if fresh && nat_eq lid j then join dst (t.queue_of j) else t.queue_of j;
      is_taken = λ j.
          if fresh && nat_eq lid j && heads dst (join dst (t.queue_of j))
          then true
          else t.is_taken j;
    }
table_call t (releasing clt lid dst xid r) =
    let fresh = ltb (t.xid_of clt lid) xid in
    record {
      queue_of = λ j. if fresh && nat_eq lid j then leave dst (t.queue_of j) else t.queue_of j;
      is_taken =
          λ j. if fresh && nat_eq lid j && heads dst (t.queue_of j) then false else t.is_taken j;
      xid_of = λ c l. if fresh && nat_eq clt c && nat_eq lid l then xid else t.xid_of c l;
    }
table_call t (revoking amiprimary) = t
table_call t (retrying amiprimary) = t

unfoldable pub table_run : Table → List Call → Table
table_run t [] = t
table_run t (c ∷ cs) = table_run (table_call t c) cs

-- What a server's maps hold.
abbrev pub table_of : LockServer → Table
table_of s = record { queue_of = queue s; is_taken = taken s; xid_of = last_xid s }

abbrev pub Implements : LockServer → Table → Type 0
Implements s t =
    ((j : ℕ) → queue s j ≡ t.queue_of j)
    × ((j : ℕ) → taken s j ≡ t.is_taken j)
    × ((c l : ℕ) → last_xid s c l ≡ t.xid_of c l)

pub call-Implements :
    (s : LockServer) (t : Table) (c : Call)
    → Implements s t
    → Implements (call s c) (table_call t c)
unfolding call table_call
call-Implements s t (acquiring clt lid dst xid r) (q, b, x) =
    let (eq, eb, ex, _) = acquire-effect s clt lid dst xid r in
    (
      λ j. ground (arith, eq j, q j, x clt lid),
      λ j. ground (arith, eb j, b j, q j, x clt lid),
      λ c l. ground (arith, ex c l, x c l),
    )
call-Implements s t (releasing clt lid dst xid r) (q, b, x) =
    let (eq, eb, ex, _) = release-effect s clt lid dst xid r in
    (
      λ j. ground (arith, eq j, q j, x clt lid),
      λ j. ground (arith, eb j, b j, q j, x clt lid),
      λ c l. ground (arith, ex c l, x c l, x clt lid),
    )
call-Implements s t (revoking amiprimary) (q, b, x) =
    unfold revoker queue taken last_xid in
    (
      λ j. ground (arith, revoke_each-lists s.locks s.lock_client_list j, q j),
      λ j. ground (arith, b j),
      λ c l. ground (arith, x c l),
    )
call-Implements s t (retrying amiprimary) (q, b, x) =
    unfold retryer queue taken last_xid in
    (
      λ j. ground (arith, retry_each-lists s.locks s.lock_client_list j, q j),
      λ j. ground (arith, b j),
      λ c l. ground (arith, x c l),
    )

-- The server implements the abstract one: where its maps hold the abstract queues, flags and
-- numbers, missing entries counting as empty, not taken and 0, they do so after any sequence of
-- calls and of rounds of the revoker and the retryer.
pub run-Implements :
    (s : LockServer) (t : Table) (cs : List Call)
    → Implements s t
    → Implements (run s cs) (table_run t cs)
unfolding run table_run
run-Implements s t [] h = h
run-Implements s t (c ∷ cs) h =
    run-Implements (call s c) (table_call t c) cs (call-Implements s t c h)
