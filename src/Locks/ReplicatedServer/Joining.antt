-- ===== src/Locks/ReplicatedServer/Joining.antt =====
-- The maps of lock_server_cache_rsm.cc stay in order, and what a new replica gets from one that has
-- served any calls.
use distributed_system_lab.Base.{
  ℕ, ◌+◌, ◌-◌, ◌%◌, ◌^◌, ◌≡◌, refl, sym, ap, subst, ◌∙◌, inl, inr, Bool, true, false, Option, none,
  some, List, [], ◌∷◌, ltb, nat_eq, ◌==◌, arith, Bool-cases, Option-cases,
}
use distributed_system_lab.Base.Tests.{nat_key}
use distributed_system_lab.Base.Bytes.{Bytes, bytes_key}
use distributed_system_lab.Base.Map.{lookup, insert, index, or_else}
use distributed_system_lab.Base.Ordered.{IsOrdered, insert-IsOrdered, index-IsOrdered}
use distributed_system_lab.Locks.ReplicatedServer.{
  LockServer, lock_server, write_xid, read_xid, enter_client, enqueue, acquire, dequeue, release,
  revoker, retryer, marshal_state, unmarshal_state,
}
use distributed_system_lab.Locks.ReplicatedServer.Queue.{queue, taken, last_xid}
use distributed_system_lab.Locks.ReplicatedServer.Calls.{
  Call, acquiring, releasing, revoking, retrying, call, run,
}
use distributed_system_lab.Locks.ReplicatedServer.Transfer.{
  OrderedMaps, Fits, find_xid, override, unmarshal-marshal_state,
}
use distributed_system_lab.Locks.ReplicatedServer.MapOrder.{
  write_xid-AreOrdered, read_xid-AreOrdered, enter_client-AreOrdered, revoke_each-IsOrdered,
  retry_each-IsOrdered,
}

acquire-OrderedMaps :
    (s : LockServer) (clt lid : ℕ) (dst : Bytes) (xid r : ℕ)
    → OrderedMaps s
    → OrderedMaps (acquire s clt lid dst xid r).server
unfolding acquire
acquire-OrderedMaps s clt lid dst xid r h =
    let read = read_xid clt lid (enter_client clt lid s.client_lock_id) in
    let ids =
      read_xid-AreOrdered clt lid _
        (enter_client-AreOrdered clt lid s.client_lock_id h.xids_in_order) in
    let queued = enqueue dst (or_else (lookup lid s.lock_client_list) []) in
    let lists = insert-IsOrdered lid queued.0 s.lock_client_list h.lists_in_order in
    let old : OrderedMaps (record s { client_lock_id = read.1 }) = record {
      lists_in_order = h.lists_in_order;
      locks_in_order = h.locks_in_order;
      xids_in_order = ids;
    } in
    let n = (s.nacquire + 1) % 2 ^ 32 in
    let waiting : OrderedMaps (record s {
      nacquire = n;
      client_lock_id = read.1;
      lock_client_list = insert lid queued.0 s.lock_client_list;
    }) =
      record { lists_in_order = lists; locks_in_order = h.locks_in_order; xids_in_order = ids } in
    let granted : OrderedMaps (record s {
      nacquire = n;
      client_lock_id = read.1;
      lock_client_list = insert lid queued.0 s.lock_client_list;
      locks = insert lid true s.locks;
    }) =
      record {
        lists_in_order = lists;
        locks_in_order = insert-IsOrdered lid true s.locks h.locks_in_order;
        xids_in_order = ids;
      } in
    elim (Bool-cases (ltb xid read.0)) [
      | inl e ↦ subst OrderedMaps (sym (ground arith)) old
      | inr e ↦ elim (Bool-cases (nat_eq xid read.0)) [
        | inl f ↦ subst OrderedMaps (sym (ground arith)) old
        | inr f ↦ elim (Bool-cases (nat_eq queued.1 0)) [
          | inl g ↦ subst OrderedMaps (sym (ground arith)) granted
          | inr g ↦ subst OrderedMaps (sym (ground arith)) waiting
        ]
      ]
    ]

dequeue-OrderedMaps :
    (s : LockServer) (lid : ℕ) (dst : Bytes) (clients : List Bytes)
    → OrderedMaps s
    → OrderedMaps (dequeue s lid dst clients)
unfolding dequeue
dequeue-OrderedMaps s lid dst [] h = h
dequeue-OrderedMaps s lid dst (first ∷ rest) h = elim (Bool-cases (first == dst)) [
  | inl e ↦
      let freed : OrderedMaps (record s {
        locks = insert lid false s.locks;
        lock_client_list = insert lid rest s.lock_client_list;
      }) =
        record {
          lists_in_order = insert-IsOrdered lid rest s.lock_client_list h.lists_in_order;
          locks_in_order = insert-IsOrdered lid false s.locks h.locks_in_order;
          xids_in_order = h.xids_in_order;
        } in
      subst OrderedMaps (sym (ground arith)) freed
  | inr e ↦ subst OrderedMaps (sym (ground arith)) h
]

release-OrderedMaps :
    (s : LockServer) (clt lid : ℕ) (dst : Bytes) (xid r : ℕ)
    → OrderedMaps s
    → OrderedMaps (release s clt lid dst xid r).server
unfolding release
release-OrderedMaps s clt lid dst xid r h =
    let read = read_xid clt lid s.client_lock_id in
    let ids = read_xid-AreOrdered clt lid s.client_lock_id h.xids_in_order in
    let lists = index lid [] s.lock_client_list in
    let old : OrderedMaps (record s { client_lock_id = read.1 }) = record {
      lists_in_order = h.lists_in_order;
      locks_in_order = h.locks_in_order;
      xids_in_order = ids;
    } in
    let t : LockServer = record s {
      nacquire = (s.nacquire + 2 ^ 32 - 1) % 2 ^ 32;
      client_lock_id = write_xid clt lid xid read.1;
      lock_client_list = lists.1;
    } in
    let new : OrderedMaps t = record {
      lists_in_order = index-IsOrdered lid [] s.lock_client_list h.lists_in_order;
      locks_in_order = h.locks_in_order;
      xids_in_order = write_xid-AreOrdered clt lid xid read.1 ids;
    } in
    elim (Bool-cases (ltb xid read.0)) [
      | inl e ↦ subst OrderedMaps (sym (ground arith)) old
      | inr e ↦ elim (Bool-cases (nat_eq xid read.0)) [
        | inl f ↦ subst OrderedMaps (sym (ground arith)) old
        | inr f ↦ subst OrderedMaps (sym (ground arith)) (dequeue-OrderedMaps t lid dst lists.0 new)
      ]
    ]

call-OrderedMaps : (s : LockServer) (c : Call) → OrderedMaps s → OrderedMaps (call s c)
unfolding call revoker retryer
call-OrderedMaps s (acquiring clt lid dst xid r) h = acquire-OrderedMaps s clt lid dst xid r h
call-OrderedMaps s (releasing clt lid dst xid r) h = release-OrderedMaps s clt lid dst xid r h
call-OrderedMaps s (revoking false) h = h
call-OrderedMaps s (revoking true) h = record {
  lists_in_order = revoke_each-IsOrdered s.locks s.lock_client_list h.lists_in_order;
  locks_in_order = h.locks_in_order;
  xids_in_order = h.xids_in_order;
}
call-OrderedMaps s (retrying false) h = h
call-OrderedMaps s (retrying true) h = record {
  lists_in_order = retry_each-IsOrdered s.locks s.lock_client_list h.lists_in_order;
  locks_in_order = h.locks_in_order;
  xids_in_order = h.xids_in_order;
}

run-OrderedMaps : (s : LockServer) (cs : List Call) → OrderedMaps s → OrderedMaps (run s cs)
unfolding run
run-OrderedMaps s [] h = h
run-OrderedMaps s (c ∷ cs) h = run-OrderedMaps (call s c) cs (call-OrderedMaps s c h)

new-OrderedMaps : OrderedMaps lock_server
unfolding lock_server IsOrdered
new-OrderedMaps = record { lists_in_order = tt; locks_in_order = tt; xids_in_order = (tt, tt) }

or_else-override : {A : Type 0} (x : Option A) (d : A) → or_else (override x none) d ≡ or_else x d
or_else-override none d = refl
or_else-override (some x) d = refl

last_xid-find_xid :
    (s : LockServer) (c l : ℕ) → last_xid s c l ≡ or_else (find_xid s.client_lock_id c l) 0
unfolding last_xid find_xid lookup
last_xid-find_xid s c l = elim (Option-cases (lookup c s.client_lock_id)) [
  | inl e ↦ ground arith
  | inr (ids, e) ↦ ground arith
]

-- A new replica that reads the state of a server that has served any calls has that server's
-- queues, locks and transaction numbers, as long as the server's numbers and sizes fit the integers
-- that are written for them; its counter is 0.
pub replica_joins :
    (cs : List Call)
    → Fits (run lock_server cs)
    → let s = run lock_server cs in
      let u = unmarshal_state (marshal_state s) lock_server in
      ((j : ℕ) → queue u j ≡ queue s j)
      × ((j : ℕ) → taken u j ≡ taken s j)
      × ((c l : ℕ) → last_xid u c l ≡ last_xid s c l)
      × (u.nacquire ≡ 0)
unfolding queue taken lookup lock_server find_xid
replica_joins cs fits =
    let s = run lock_server cs in
    let u = unmarshal_state (marshal_state s) lock_server in
    let (lists, locks, xids, count) =
      unmarshal-marshal_state s lock_server fits (run-OrderedMaps lock_server cs new-OrderedMaps) in
    (
      λ j.
          ap (λ (x : Option (List Bytes)). or_else x []) (lists j)
          ∙ or_else-override (lookup j s.lock_client_list) [],
      λ j.
          ap (λ (x : Option Bool). or_else x false) (locks j)
          ∙ or_else-override (lookup j s.locks) false,
      λ c l.
          last_xid-find_xid u c l
          ∙ ap (λ (x : Option ℕ). or_else x 0) (xids c l)
          ∙ or_else-override (find_xid s.client_lock_id c l) 0
          ∙ sym (last_xid-find_xid s c l),
      count,
    )
