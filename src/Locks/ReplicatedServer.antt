-- ===== src/Locks/ReplicatedServer.antt =====
-- `class lock_server_cache_rsm` of lock_server_cache_rsm.h and lock_server_cache_rsm.cc. A call holds
-- the mutex from its entry to its return; a broadcast is a Boolean of the answer.
pub mod Queue
pub mod Calls
pub mod Exclusion
pub mod Order
pub mod Repeats
pub mod Transfer
pub mod MapOrder
pub mod Joining
use distributed_system_lab.Base.{
  ℕ, zero, suc, ◌+◌, ◌-◌, ◌%◌, ◌^◌, Bool, true, false, not, ◌&&◌, ◌||◌, Option, none, some, List,
  [], ◌∷◌, ◌++◌, ltb, nat_eq, if◌then◌else◌, ◌==◌, length,
}
use distributed_system_lab.Base.Tests.{nat_key}
use distributed_system_lab.Base.Bytes.{Bytes, bytes_key}
use distributed_system_lab.Base.Map.{Map, lookup, insert, index, or_else}
use distributed_system_lab.Rpc.Marshall.{
  Marshal, bool_marshal, uint_marshal, ulonglong_marshal, string_marshal, vector_marshal,
  entry_marshal, take_content, insert_each,
}
use distributed_system_lab.Locks.{Status, ok, retry}

pub record LockServer : Type 0 where
  pub nacquire : ℕ
  pub locks : Map ℕ Bool
  pub lock_client_list : Map ℕ (List Bytes)
  pub client_lock_id : Map ℕ (Map ℕ ℕ)

unfoldable pub lock_server : LockServer
lock_server = record { nacquire = 0; locks = []; lock_client_list = []; client_lock_id = [] }

-- What a handler comes back with: its status and its argument `r`, and which threads it wakes.
pub record Answer : Type 0 where
  pub server : LockServer
  pub status : Status
  pub r : ℕ
  pub wakes_revoker : Bool
  pub wakes_retryer : Bool

-- client_lock_id[clt][lid] = xid
unfoldable pub write_xid : ℕ → ℕ → ℕ → Map ℕ (Map ℕ ℕ) → Map ℕ (Map ℕ ℕ)
write_xid clt lid xid m = insert clt (insert lid xid (or_else (lookup clt m) [])) m

-- The read client_lock_id[clt][lid]; entries that are missing are left behind.
unfoldable pub read_xid : ℕ → ℕ → Map ℕ (Map ℕ ℕ) → ℕ × Map ℕ (Map ℕ ℕ)
read_xid clt lid m =
    let (xid, ids) = index lid 0 (or_else (lookup clt m) []) in (xid, insert clt ids m)

-- The check with `find`, and the 0 that is written if there is no entry.
unfoldable pub enter_client : ℕ → ℕ → Map ℕ (Map ℕ ℕ) → Map ℕ (Map ℕ ℕ)
unfolding write_xid
enter_client clt lid m = elim (lookup clt m) [
  | none ↦ write_xid clt lid 0 m
  | some ids ↦ elim (lookup lid ids) [ none ↦ write_xid clt lid 0 m | some xid ↦ m ]
]

-- The loop of acquire; `none` is position -1.
unfoldable pub position : Bytes → List Bytes → Option ℕ
position dst [] = none
position dst (x ∷ l) =
    let rest = position dst l in
    if x == dst then some 0 else elim rest [ none ↦ none | some i ↦ some (suc i) ]

-- The list and the position of `dst` after the loop and the push_back.
unfoldable pub enqueue : Bytes → List Bytes → List Bytes × ℕ
unfolding position
enqueue dst l = elim (position dst l) [
  | none ↦ (l ++ dst ∷ [], (length (l ++ dst ∷ [])) - 1)
  | some i ↦ (l, i)
]

unfoldable pub acquire : LockServer → ℕ → ℕ → Bytes → ℕ → ℕ → Answer
unfolding enter_client read_xid enqueue
acquire s0 clt lid dst xid r0 =
    let (last, ids) = read_xid clt lid (enter_client clt lid s0.client_lock_id) in
    let s = record s0 { client_lock_id = ids } in
    if ltb xid last
    then record { server = s; status = ok; r = r0; wakes_revoker = false; wakes_retryer = false }
    else if nat_eq xid last
    then record { server = s; status = ok; r = r0; wakes_revoker = true; wakes_retryer = false }
    else (let n = (s.nacquire + 1) % 2 ^ 32 in
        let (clients, place) = enqueue dst (or_else (lookup lid s.lock_client_list) []) in
        let queued = record s {
          nacquire = n;
          lock_client_list = insert lid clients s.lock_client_list;
        } in
        if nat_eq place 0
        then record {
          server = record queued { locks = insert lid true s.locks };
          status = ok;
          r = n;
          wakes_revoker = ltb 1 (length clients);
          wakes_retryer = false;
        }
        else record {
          server = queued;
          status = retry;
          r = n;
          wakes_revoker = ltb 1 (length clients);
          wakes_retryer = false;
        })

-- The end of release: the holder is taken from the front of the list.
unfoldable pub dequeue : LockServer → ℕ → Bytes → List Bytes → LockServer
dequeue s lid dst [] = s
dequeue s lid dst (first ∷ rest) =
    if first == dst
    then record s {
      locks = insert lid false s.locks;
      lock_client_list = insert lid rest s.lock_client_list;
    }
    else s

unfoldable pub release : LockServer → ℕ → ℕ → Bytes → ℕ → ℕ → Answer
unfolding read_xid write_xid dequeue
release s0 clt lid dst xid r0 =
    let (last, ids) = read_xid clt lid s0.client_lock_id in
    let s = record s0 { client_lock_id = ids } in
    if ltb xid last
    then record {
      server = s;
      status = ok;
      r = s.nacquire;
      wakes_revoker = false;
      wakes_retryer = false;
    }
    else if nat_eq xid last
    then record {
      server = s;
      status = ok;
      r = s.nacquire;
      wakes_revoker = false;
      wakes_retryer = true;
    }
    else (let (clients, lists) = index lid [] s.lock_client_list in
        let t = record s {
          nacquire = (s.nacquire + 2 ^ 32 - 1) % 2 ^ 32;
          client_lock_id = write_xid clt lid xid ids;
          lock_client_list = lists;
        } in
        record {
          server = dequeue t lid dst clients;
          status = ok;
          r = s.nacquire;
          wakes_revoker = false;
          wakes_retryer = true;
        })

unfoldable pub stat : LockServer → ℕ → Status × ℕ
stat s lid = (ok, s.nacquire)

-- The RPC to the client at the front.
abbrev pub front_call : ℕ → List Bytes → List (ℕ × Bytes) → List (ℕ × Bytes)
front_call lid [] calls = calls
front_call lid (first ∷ rest) calls = (lid, first) ∷ calls

-- One round of the revoker at the primary: whom it sends a revoke for which lock.
unfoldable pub revoke_each : Map ℕ Bool → Map ℕ (List Bytes) → Map ℕ (List Bytes) × List (ℕ × Bytes)
revoke_each [] lists = (lists, [])
revoke_each ((lid, taken) ∷ locks) lists =
    let (clients, read) = index lid [] lists in
    let rest = revoke_each locks (if taken then read else lists) in
    if taken && ltb 1 (length clients) then (rest.0, front_call lid clients rest.1) else rest

unfoldable pub revoker : LockServer → Bool → LockServer × List (ℕ × Bytes)
unfolding revoke_each
revoker s amiprimary =
    let (lists, calls) = revoke_each s.locks s.lock_client_list in
    if amiprimary then (record s { lock_client_list = lists }, calls) else (s, [])

-- One round of the retryer at the primary: whom it sends a retry for which lock.
unfoldable pub retry_each : Map ℕ Bool → Map ℕ (List Bytes) → Map ℕ (List Bytes) × List (ℕ × Bytes)
retry_each [] lists = (lists, [])
retry_each ((lid, taken) ∷ locks) lists =
    let (clients, read) = index lid [] lists in
    let rest = retry_each locks (if taken then lists else read) in
    if not taken && ltb 0 (length clients) then (rest.0, front_call lid clients rest.1) else rest

unfoldable pub retryer : LockServer → Bool → LockServer × List (ℕ × Bytes)
unfolding retry_each
retryer s amiprimary =
    let (lists, calls) = retry_each s.locks s.lock_client_list in
    if amiprimary then (record s { lock_client_list = lists }, calls) else (s, [])

-- The three maps as they are marshalled. Sizes are those of a 32-bit size_t, and locks and values
-- read through an iterator's key are the entry's own.
abbrev pub clients_marshal : Marshal (Map ℕ (List Bytes))
clients_marshal = vector_marshal (entry_marshal ulonglong_marshal (vector_marshal string_marshal))

abbrev pub locks_marshal : Marshal (Map ℕ Bool)
locks_marshal = vector_marshal (entry_marshal ulonglong_marshal bool_marshal)

abbrev pub xids_marshal : Marshal (Map ℕ (Map ℕ ℕ))
xids_marshal = vector_marshal (
    entry_marshal uint_marshal (vector_marshal (entry_marshal ulonglong_marshal ulonglong_marshal)))

unfoldable pub marshal_state : LockServer → Bytes
marshal_state s =
    clients_marshal.put s.lock_client_list
    ++ (locks_marshal.put s.locks ++ xids_marshal.put s.client_lock_id)

-- The assignments client_lock_id[clt][name] = value.
unfoldable pub write_xids : ℕ → List (ℕ × ℕ) → Map ℕ (Map ℕ ℕ) → Map ℕ (Map ℕ ℕ)
unfolding write_xid
write_xids clt [] m = m
write_xids clt ((name, value) ∷ entries) m = write_xids clt entries (write_xid clt name value m)

unfoldable pub write_clients : List (ℕ × List (ℕ × ℕ)) → Map ℕ (Map ℕ ℕ) → Map ℕ (Map ℕ ℕ)
unfolding write_xids
write_clients [] m = m
write_clients ((clt, entries) ∷ rest) m = write_clients rest (write_xids clt entries m)

-- What is read does not depend on the maps, so that it is read before it is written to them. The
-- maps are not cleared.
unfoldable pub unmarshal_state : Bytes → LockServer → LockServer
unfolding take_content insert_each write_clients
unmarshal_state state s =
    let (clients, u1) = clients_marshal.get (take_content state) in
    let (locks, u2) = locks_marshal.get u1 in
    let (xids, u3) = xids_marshal.get u2 in
    record s {
      lock_client_list = insert_each clients s.lock_client_list;
      locks = insert_each locks s.locks;
      client_lock_id = write_clients xids s.client_lock_id;
    }
