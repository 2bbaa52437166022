-- ===== src/Locks/ReplicatedServer/Repeats.antt =====
-- Requests that come to lock_server_cache_rsm.cc more than once, or late.
use distributed_system_lab.Base.{
  ℕ, ◌+◌, ◌-◌, ◌%◌, ◌^◌, ◌≤◌, ◌≡◌, refl, inl, inr, true, List, [], ◌∷◌, ◌++◌, if◌then◌else◌, arith,
  Bool-cases,
}
use distributed_system_lab.Base.Tests.{nat_key}
use distributed_system_lab.Base.Bytes.{Bytes, bytes_key, bytes_eq_iff}
use distributed_system_lab.Base.Map.{index}
use distributed_system_lab.Locks.{ok}
use distributed_system_lab.Locks.ReplicatedServer.{
  enter_client, dequeue, LockServer, acquire, release,
}
use distributed_system_lab.Locks.ReplicatedServer.Queue.{
  read_xid-value, xid_in-enter_client, queue, taken, last_xid, waits, join,
}
use distributed_system_lab.Locks.ReplicatedServer.Calls.{newer, acquire-effect, release-effect}
use distributed_system_lab.Locks.ReplicatedServer.Exclusion.{Holds}

-- Two servers that differ at most in the counter and in entries that say nothing.
abbrev pub Alike : LockServer → LockServer → Type 0
Alike s t =
    ((j : ℕ) → queue t j ≡ queue s j)
    × ((j : ℕ) → taken t j ≡ taken s j)
    × ((c l : ℕ) → last_xid t c l ≡ last_xid s c l)

-- What acquire and release do to the counter.
acquire-nacquire :
    (s : LockServer) (clt lid : ℕ) (dst : Bytes) (xid r : ℕ)
    → (acquire s clt lid dst xid r).server.nacquire
      ≡ (if newer s clt lid xid then (s.nacquire + 1) % 2 ^ 32 else s.nacquire)
unfolding acquire last_xid
acquire-nacquire s clt lid dst xid r = ground (
  arith,
  read_xid-value (enter_client clt lid s.client_lock_id) clt lid,
  xid_in-enter_client s.client_lock_id clt lid clt lid,
)

release-nacquire :
    (s : LockServer) (clt lid : ℕ) (dst : Bytes) (xid r : ℕ)
    → (release s clt lid dst xid r).server.nacquire
      ≡ (if newer s clt lid xid then (s.nacquire + 2 ^ 32 - 1) % 2 ^ 32 else s.nacquire)
unfolding release last_xid dequeue
release-nacquire s clt lid dst xid r = go (index lid [] s.lock_client_list).0 refl
  where
    go :
        (clients : List Bytes)
        → (index lid [] s.lock_client_list).0 ≡ clients
        → (release s clt lid dst xid r).server.nacquire
          ≡ (if newer s clt lid xid then (s.nacquire + 2 ^ 32 - 1) % 2 ^ 32 else s.nacquire)
    go [] e = ground (arith, read_xid-value s.client_lock_id clt lid)
    go (x ∷ l) e = ground (arith, read_xid-value s.client_lock_id clt lid)

old_release-Alike :
    (s : LockServer) (clt lid : ℕ) (dst : Bytes) (xid r : ℕ)
    → xid ≤ last_xid s clt lid
    → Alike s (release s clt lid dst xid r).server
      × ((release s clt lid dst xid r).server.nacquire ≡ s.nacquire)
old_release-Alike s clt lid dst xid r old =
    let (eq, eb, ex, _) = release-effect s clt lid dst xid r in
    (
      (λ j. ground (arith, eq j), λ j. ground (arith, eb j), λ c l. ground (arith, ex c l)),
      ground (arith, release-nacquire s clt lid dst xid r),
    )

-- Release at most once: a release that comes again, after the first and any acquires by any
-- clients, is answered with OK and changes no queue, no lock, no transaction number and not the
-- counter.
pub release-again :
    (s : LockServer) (clt lid : ℕ) (dst : Bytes) (xid r r' : ℕ) (clt' lid' : ℕ) (e : Bytes)
    (xid' q : ℕ)
    → let first = (release s clt lid dst xid r).server in
      let between = (acquire first clt' lid' e xid' q).server in
      let again = release between clt lid dst xid r' in
      (again.status ≡ ok) × Alike between again.server × (again.server.nacquire ≡ between.nacquire)
release-again s clt lid dst xid r r' clt' lid' e xid' q =
    let first = (release s clt lid dst xid r).server in
    let between = (acquire first clt' lid' e xid' q).server in
    let (_, _, x, _) = release-effect s clt lid dst xid r in
    let (_, _, y, _) = acquire-effect first clt' lid' e xid' q in
    let (_, _, _, es) = release-effect between clt lid dst xid r' in
    let old : xid ≤ last_xid between clt lid = ground (arith, y clt lid, x clt lid) in
    let (alike, count) = old_release-Alike between clt lid dst xid r' old in (es, alike, count)

waits-join : (d : Bytes) (l : List Bytes) → waits d (join d l) ≡ true
unfolding waits
waits-join d l = elim (Bool-cases (waits d l)) [
  | inl e ↦ ground arith
  | inr e ↦ ground (arith, at_end l)
]
  where
    at_end : (k : List Bytes) → waits d (k ++ d ∷ []) ≡ true
    at_end [] = ground (arith, bytes_eq_iff d d)
    at_end (x ∷ k) = ground (arith, at_end k)

-- An acquire that comes again, before the client's release, is answered as the first one and
-- changes nothing but the counter, which counts a new one twice.
pub acquire-again :
    (s : LockServer) (clt lid : ℕ) (dst : Bytes) (xid r r' : ℕ)
    → let first = acquire s clt lid dst xid r in
      let again = acquire first.server clt lid dst xid r' in
      (again.status ≡ first.status)
      × Alike first.server again.server
      × (again.server.nacquire ≡ (
          if newer s clt lid xid
          then (first.server.nacquire + 1) % 2 ^ 32
          else first.server.nacquire))
acquire-again s clt lid dst xid r r' =
    let first = (acquire s clt lid dst xid r).server in
    let (eq, eb, ex, es) = acquire-effect s clt lid dst xid r in
    let (fq, fb, fx, fs) = acquire-effect first clt lid dst xid r' in
    (
      ground (arith, es, fs, ex clt lid, eq lid, waits-join dst (queue s lid)),
      (
        λ j. ground (arith, fq j, ex clt lid, eq j, waits-join dst (queue s j)),
        λ j. ground (arith, fb j, eb j, ex clt lid, eq j, waits-join dst (queue s j)),
        λ c l. fx c l,
      ),
      ground (arith, acquire-nacquire first clt lid dst xid r', ex clt lid),
    )

-- An acquire whose transaction number is not above that of the client's last release of the lock
-- is answered with OK without any grant: the lock, the queues and the counter stay as they were,
-- so another client that holds the lock holds it still.
pub old_acquire :
    (s : LockServer) (clt lid : ℕ) (dst : Bytes) (xid r : ℕ) (d : Bytes)
    → xid ≤ last_xid s clt lid
    → Holds d lid s
    → ((acquire s clt lid dst xid r).status ≡ ok)
      × Holds d lid (acquire s clt lid dst xid r).server
      × Alike s (acquire s clt lid dst xid r).server
      × ((acquire s clt lid dst xid r).server.nacquire ≡ s.nacquire)
old_acquire s clt lid dst xid r d old (t, h) =
    let (eq, eb, ex, es) = acquire-effect s clt lid dst xid r in
    (
      ground (arith, es),
      (ground (arith, eb lid), ground (arith, eq lid)),
      (λ j. ground (arith, eq j), λ j. ground (arith, eb j), λ c l. ex c l),
      ground (arith, acquire-nacquire s clt lid dst xid r),
    )
