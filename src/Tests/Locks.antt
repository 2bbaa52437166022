-- ===== src/Tests/Locks.antt =====
-- Two clients and one lock at the server of lock_server_cache_rsm.cc.
use distributed_system_lab.Base.{ℕ, ◌<◌, ◌≡◌, refl, ◌≢◌, true, false, [], ◌∷◌, arith, All}
use distributed_system_lab.Base.Tests.{nat_key}
use distributed_system_lab.Base.Bytes.{Bytes, bytes, bytes_eq, bytes_key}
use distributed_system_lab.Base.Map.{lookup, insert, index}
use distributed_system_lab.Locks.{ok, retry}
use distributed_system_lab.Locks.ReplicatedServer.{
  LockServer, marshal_state, unmarshal_state, lock_server, write_xid, read_xid, enter_client,
  position, enqueue, acquire, dequeue, release, revoke_each, revoker, retry_each, retryer,
}
use distributed_system_lab.Locks.ReplicatedServer.Queue.{queue, taken, last_xid, waits, heads}
use distributed_system_lab.Locks.ReplicatedServer.Calls.{
  acquiring, releasing, revoking, call, run, table_run, Implements, run-Implements,
}
use distributed_system_lab.Locks.ReplicatedServer.Exclusion.{Holds, gives_up, mutual_exclusion}
use distributed_system_lab.Locks.ReplicatedServer.Order.{
  WellFormed, run-WellFormed, distinct, Behind, before, no_overtaking,
}
use distributed_system_lab.Rpc.Marshall.{
  put_vector, put_each, put_entry, put_uint, put_ulonglong, put_string, put_bool,
}
use distributed_system_lab.Base.Ordered.{IsOrdered}
use distributed_system_lab.Locks.ReplicatedServer.Transfer.{
  OrderedMaps, Fits, find_xid, override, unmarshal-marshal_state,
}
use distributed_system_lab.Locks.ReplicatedServer.Joining.{replica_joins}
use distributed_system_lab.Locks.ReplicatedServer.Repeats.{Alike, old_acquire}

abbrev alice : Bytes
alice = bytes "a"

abbrev bob : Bytes
bob = bytes "b"

-- Client 1 holds lock 7 and client 2 waits for it.
abbrev contended : LockServer
contended = record {
  nacquire = 2;
  locks = (7, true) ∷ [];
  lock_client_list = (7, alice ∷ bob ∷ []) ∷ [];
  client_lock_id = (1, (7, 0) ∷ []) ∷ (2, (7, 0) ∷ []) ∷ [];
}

contended_is : run lock_server (acquiring 1 7 alice 1 0 ∷ acquiring 2 7 bob 1 0 ∷ []) ≡ contended
unfolding run call lock_server acquire enter_client write_xid read_xid enqueue position lookup
    insert index bytes_eq
contended_is = refl

-- The holder gives the lock up, and the retryer then calls the other client.
handed_over : retryer (run contended (releasing 1 7 alice 1 0 ∷ [])) true ≡ (
  record {
    nacquire = 1;
    locks = (7, false) ∷ [];
    lock_client_list = (7, bob ∷ []) ∷ [];
    client_lock_id = (1, (7, 1) ∷ []) ∷ (2, (7, 0) ∷ []) ∷ [];
  },
  (7, bob) ∷ [],
)
unfolding run call release dequeue write_xid read_xid lookup insert index bytes_eq retryer
    retry_each
handed_over = refl

revoke_sent : revoker contended true ≡ (contended, (7, alice) ∷ [])
unfolding revoker revoke_each lookup insert index
revoke_sent = refl

start_xid : last_xid lock_server 1 7 ≡ 0
unfolding last_xid lookup lock_server
start_xid = refl

first_grant : (acquire lock_server 1 7 alice 1 0).status ≡ ok
unfolding lock_server acquire enter_client write_xid read_xid enqueue position lookup insert index
    bytes_eq
first_grant = refl

bob_joins :
    last_xid
      (run (acquire lock_server 1 7 alice 1 0).server (acquiring 2 7 bob 1 0 ∷ revoking true ∷ []))
      2
      7
    ≡ 0
unfolding run call lock_server acquire enter_client write_xid read_xid enqueue position lookup
    insert index bytes_eq last_xid revoker revoke_each
bob_joins = refl

none_given_up : All (λ c. gives_up 7 alice c ≡ false) (acquiring 2 7 bob 1 0 ∷ revoking true ∷ [])
unfolding gives_up
none_given_up = (refl, (refl, tt))

other : bob ≢ alice
other e = absurd (ground arith)

mutual_exclusion_example :
    Holds alice 7
      (run (acquire lock_server 1 7 alice 1 0).server (acquiring 2 7 bob 1 0 ∷ revoking true ∷ []))
    × ((acquire
          (run
            (acquire lock_server 1 7 alice 1 0).server
            (acquiring 2 7 bob 1 0 ∷ revoking true ∷ []))
          2
          7
          bob
          2
          0).status
        ≡ retry)
mutual_exclusion_example =
    mutual_exclusion lock_server 1 7 alice 1 0 (acquiring 2 7 bob 1 0 ∷ revoking true ∷ []) 2 bob 2
      0 (ground (arith, start_xid)) first_grant none_given_up other (ground (arith, bob_joins))

empty_table :
    Implements lock_server (record { queue_of = λ j. []; is_taken = λ j. false; xid_of = λ c l. 0 })
unfolding queue taken last_xid lookup lock_server
empty_table = (λ j. refl, λ j. refl, λ c l. refl)

run-Implements_example :
    Implements (run lock_server (acquiring 1 7 alice 1 0 ∷ acquiring 2 7 bob 1 0 ∷ [])) (
      table_run
        (record { queue_of = λ j. []; is_taken = λ j. false; xid_of = λ c l. 0 })
        (acquiring 1 7 alice 1 0 ∷ acquiring 2 7 bob 1 0 ∷ []))
run-Implements_example =
    run-Implements lock_server
      (record { queue_of = λ j. []; is_taken = λ j. false; xid_of = λ c l. 0 })
      (acquiring 1 7 alice 1 0 ∷ acquiring 2 7 bob 1 0 ∷ []) empty_table

no_queue : WellFormed lock_server
unfolding queue taken lookup lock_server distinct
no_queue j = (refl, λ e. absurd (ground arith))

run-WellFormed_example :
    WellFormed (run lock_server (acquiring 1 7 alice 1 0 ∷ acquiring 2 7 bob 1 0 ∷ []))
run-WellFormed_example =
    run-WellFormed lock_server (acquiring 1 7 alice 1 0 ∷ acquiring 2 7 bob 1 0 ∷ []) no_queue

bob-waits : waits bob (queue contended 7) ≡ true
unfolding waits queue lookup bytes_eq
bob-waits = refl

bob_stays : All (λ c. gives_up 7 bob c ≡ false) (releasing 1 7 alice 1 0 ∷ [])
unfolding gives_up bytes_eq
bob_stays = (refl, tt)

-- When the first client has released the lock, the second one asks anew and is granted it.
bob_new : last_xid (run contended (releasing 1 7 alice 1 0 ∷ [])) 2 7 < 1
unfolding run call release last_xid lookup insert bytes_eq index
bob_new = omega arith

no_overtaking_example :
    let t = run contended (releasing 1 7 alice 1 0 ∷ []) in
    (waits bob (queue t 7) ≡ true)
    × Behind (before bob (queue contended 7)) (before bob (queue t 7))
    × ((acquire t 2 7 bob 1 0).status ≡ ok
        → (bob ≡ bob → before bob (queue t 7) ≡ [])
          × (bob ≢ bob → waits bob (before bob (queue contended 7)) ≡ true))
no_overtaking_example =
    no_overtaking contended 7 bob (releasing 1 7 alice 1 0 ∷ []) 2 bob 1 0 bob-waits bob_stays
      bob_new

bob_old : last_xid contended 2 7 ≡ 0
unfolding last_xid lookup
bob_old = refl

alice-Holds : Holds alice 7 contended
unfolding taken queue lookup heads bytes_eq
alice-Holds = (refl, refl)

-- The other client's acquire has a transaction number that is not above its last one.
old_acquire_example :
    ((acquire contended 2 7 bob 0 0).status ≡ ok)
    × Holds alice 7 (acquire contended 2 7 bob 0 0).server
    × Alike contended (acquire contended 2 7 bob 0 0).server
    × ((acquire contended 2 7 bob 0 0).server.nacquire ≡ 2)
old_acquire_example = old_acquire contended 2 7 bob 0 0 alice (ground (arith, bob_old)) alice-Holds

contended-Fits : Fits (run lock_server (acquiring 1 7 alice 1 0 ∷ acquiring 2 7 bob 1 0 ∷ []))
unfolding run call lock_server acquire enter_client write_xid read_xid enqueue position lookup
    insert index bytes_eq marshal_state put_vector put_each put_entry put_uint put_ulonglong
    put_string put_bool
contended-Fits = (
  (omega arith, ((omega arith, (omega arith, (omega arith, (omega arith, tt)))), tt)),
  (omega arith, ((omega arith, tt), tt)),
  (
    omega arith,
    (
      (omega arith, (omega arith, ((omega arith, omega arith), tt))),
      ((omega arith, (omega arith, ((omega arith, omega arith), tt))), tt),
    ),
  ),
  omega arith,
)

replica_joins_example :
    let s = run lock_server (acquiring 1 7 alice 1 0 ∷ acquiring 2 7 bob 1 0 ∷ []) in
    let u = unmarshal_state (marshal_state s) lock_server in
    ((j : ℕ) → queue u j ≡ queue s j)
    × ((j : ℕ) → taken u j ≡ taken s j)
    × ((c l : ℕ) → last_xid u c l ≡ last_xid s c l)
    × (u.nacquire ≡ 0)
replica_joins_example =
    replica_joins (acquiring 1 7 alice 1 0 ∷ acquiring 2 7 bob 1 0 ∷ []) contended-Fits

contended_in_order :
    OrderedMaps (run lock_server (acquiring 1 7 alice 1 0 ∷ acquiring 2 7 bob 1 0 ∷ []))
unfolding run call lock_server acquire enter_client write_xid read_xid enqueue position lookup
    insert index bytes_eq IsOrdered
contended_in_order = record {
  lists_in_order = (tt, tt);
  locks_in_order = (tt, tt);
  xids_in_order = (((omega arith, tt), (tt, tt)), ((tt, tt), ((tt, tt), tt)));
}

-- The other server has an entry of its own, for lock 9.
abbrev behind : LockServer
behind = record { nacquire = 5; locks = (9, true) ∷ []; lock_client_list = []; client_lock_id = [] }

unmarshal-marshal_state_example :
    let s = run lock_server (acquiring 1 7 alice 1 0 ∷ acquiring 2 7 bob 1 0 ∷ []) in
    let u = unmarshal_state (marshal_state s) behind in
    ((j : ℕ)
      → lookup j u.lock_client_list
        ≡ override (lookup j s.lock_client_list) (lookup j behind.lock_client_list))
    × ((j : ℕ) → lookup j u.locks ≡ override (lookup j s.locks) (lookup j behind.locks))
    × ((c l : ℕ)
        → find_xid u.client_lock_id c l
          ≡ override (find_xid s.client_lock_id c l) (find_xid behind.client_lock_id c l))
    × (u.nacquire ≡ 5)
unmarshal-marshal_state_example =
    unmarshal-marshal_state (run lock_server (acquiring 1 7 alice 1 0 ∷ acquiring 2 7 bob 1 0 ∷ []))
      behind contended-Fits contended_in_order
