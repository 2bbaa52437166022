-- ===== src/Locks/ReplicatedServer/Exclusion.antt =====
-- Who holds a lock of lock_server_cache_rsm.cc.
use distributed_system_lab.Base.{
  ℕ, ◌<◌, ◌≡◌, refl, ◌≢◌, Bool, true, false, ◌&&◌, List, [], ◌∷◌, nat_eq, ◌==◌, arith, All,
}
use distributed_system_lab.Base.Tests.{nat_key}
use distributed_system_lab.Base.Bytes.{Bytes, bytes_key, bytes_eq_iff}
use distributed_system_lab.Locks.{ok, retry}
use distributed_system_lab.Locks.ReplicatedServer.{LockServer, acquire}
use distributed_system_lab.Locks.ReplicatedServer.Queue.{
  queue, taken, last_xid, waits, join, leave, heads,
}
use distributed_system_lab.Locks.ReplicatedServer.Calls.{
  Call, acquiring, releasing, revoking, retrying, call, run, table_call, call-Implements,
  acquire-effect, release-effect, table_of,
}

-- The client that is first in the queue of a lock that is taken.
abbrev pub Holds : Bytes → ℕ → LockServer → Type 0
Holds d lid s = (taken s lid ≡ true) × (heads d (queue s lid) ≡ true)

-- A release of the lock by that client.
unfoldable pub gives_up : ℕ → Bytes → Call → Bool
gives_up lid d (releasing clt l dst xid r) = nat_eq l lid && (dst == d)
gives_up lid d c = false

heads-waits : (d : Bytes) (l : List Bytes) → heads d l ≡ true → waits d l ≡ true
unfolding heads waits
heads-waits d [] h = absurd (ground arith)
heads-waits d (x ∷ l) h = ground arith

heads-join : (d e : Bytes) (l : List Bytes) → heads d l ≡ true → heads d (join e l) ≡ true
unfolding heads waits
heads-join d e [] h = absurd (ground arith)
heads-join d e (x ∷ l) h = ground arith

heads_unique : (d e : Bytes) (l : List Bytes) → heads d l ≡ true → heads e l ≡ true → d ≡ e
unfolding heads
heads_unique d e [] h k = absurd (ground arith)
heads_unique d e (x ∷ l) h k = ground (arith, bytes_eq_iff x d, bytes_eq_iff x e)

heads-leave : (d e : Bytes) (l : List Bytes) → heads d l ≡ true → e ≢ d → heads d (leave e l) ≡ true
unfolding heads leave
heads-leave d e [] h ne = absurd (ground arith)
heads-leave d e (x ∷ l) h ne = ground (arith, bytes_eq_iff x d, bytes_eq_iff x e)

call-Holds :
    (s : LockServer) (lid : ℕ) (d : Bytes) (c : Call)
    → Holds d lid s
    → gives_up lid d c ≡ false
    → Holds d lid (call s c)
unfolding call gives_up
call-Holds s lid d (acquiring clt l dst xid r) (t, h) g =
    let (eq, eb, _, _) = acquire-effect s clt l dst xid r in
    (ground (arith, eb lid), ground (arith, eq lid, heads-join d dst (queue s lid) h))
call-Holds s lid d (releasing clt l dst xid r) (t, h) g =
    let (eq, eb, _, _) = release-effect s clt l dst xid r in
    (
      ground (arith, eb lid, heads_unique d dst (queue s lid), bytes_eq_iff dst d),
      ground (arith, eq lid, heads-leave d dst (queue s lid) h, bytes_eq_iff dst d),
    )
call-Holds s lid d (revoking p) (t, h) g =
    let (q, b, _) =
      call-Implements s (table_of s) (revoking p) (λ j. refl, λ j. refl, λ c l. refl) in
    unfold table_call in (ground (arith, b lid), ground (arith, q lid))
call-Holds s lid d (retrying p) (t, h) g =
    let (q, b, _) =
      call-Implements s (table_of s) (retrying p) (λ j. refl, λ j. refl, λ c l. refl) in
    unfold table_call in (ground (arith, b lid), ground (arith, q lid))

run-Holds :
    (s : LockServer) (lid : ℕ) (d : Bytes) (cs : List Call)
    → Holds d lid s
    → All (λ c. gives_up lid d c ≡ false) cs
    → Holds d lid (run s cs)
unfolding run
run-Holds s lid d [] h g = h
run-Holds s lid d (c ∷ cs) h (g, gs) = run-Holds (call s c) lid d cs (call-Holds s lid d c h g) gs

-- A new acquire that is answered with OK has made its client the holder, and one that is answered
-- with RETRY has put it in the queue.
acquire-Holds :
    (s : LockServer) (clt lid : ℕ) (dst : Bytes) (xid r : ℕ)
    → last_xid s clt lid < xid
    → (acquire s clt lid dst xid r).status ≡ ok
    → Holds dst lid (acquire s clt lid dst xid r).server
acquire-Holds s clt lid dst xid r new e =
    let (eq, eb, _, es) = acquire-effect s clt lid dst xid r in
    (ground (arith, eb lid, es), ground (arith, eq lid, es))

-- Mutual exclusion: once a new acquire of a client has been answered with OK, the client holds the
-- lock after any calls of any clients, and any rounds of the revoker and the retryer, among which
-- is no release of that lock by it; and a new acquire by another client is then answered with RETRY.
pub mutual_exclusion :
    (s : LockServer) (clt lid : ℕ) (d : Bytes) (xid r : ℕ) (cs : List Call) (clt' : ℕ) (e : Bytes)
    (xid' r' : ℕ)
    → last_xid s clt lid < xid
    → (acquire s clt lid d xid r).status ≡ ok
    → All (λ c. gives_up lid d c ≡ false) cs
    → e ≢ d
    → last_xid (run (acquire s clt lid d xid r).server cs) clt' lid < xid'
    → Holds d lid (run (acquire s clt lid d xid r).server cs)
      × ((acquire (run (acquire s clt lid d xid r).server cs) clt' lid e xid' r').status ≡ retry)
mutual_exclusion s clt lid d xid r cs clt' e xid' r' new granted kept other new' =
    let t = run (acquire s clt lid d xid r).server cs in
    let holds : Holds d lid t =
      run-Holds (acquire s clt lid d xid r).server lid d cs
        (acquire-Holds s clt lid d xid r new granted) kept in
    let (_, _, _, es) = acquire-effect t clt' lid e xid' r' in
    (
      holds,
      ground (
        arith,
        es,
        heads-join d e (queue t lid) holds.1,
        heads_unique d e (join e (queue t lid)),
      ),
    )
