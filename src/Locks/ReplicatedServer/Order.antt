-- ===== src/Locks/ReplicatedServer/Order.antt =====
-- The order in which lock_server_cache_rsm.cc serves the clients of a lock.
use distributed_system_lab.Base.{
  ℕ, ◌<◌, ◌≢◌, ◌≡◌, refl, sym, ap, subst, ◌∙◌, inl, inr, Bool, true, false, not, ◌&&◌, ◌||◌, List,
  [], ◌∷◌, ◌++◌, nat_eq, if◌then◌else◌, ◌==◌, arith, Bool-cases, is_empty, All,
}
use distributed_system_lab.Base.Tests.{nat_key}
use distributed_system_lab.Base.Bytes.{Bytes, bytes_key, bytes_eq_iff}
use distributed_system_lab.Locks.{ok}
use distributed_system_lab.Locks.ReplicatedServer.{LockServer, acquire}
use distributed_system_lab.Locks.ReplicatedServer.Queue.{
  queue, taken, last_xid, waits, join, leave, heads,
}
use distributed_system_lab.Locks.ReplicatedServer.Calls.{
  Call, acquiring, releasing, revoking, retrying, call, run, table_call, call-Implements, newer,
  acquire-effect, table_of,
}
use distributed_system_lab.Locks.ReplicatedServer.Exclusion.{gives_up}

-- No client is twice in a queue.
unfoldable pub distinct : List Bytes → Bool
distinct [] = true
distinct (x ∷ l) = not (waits x l) && distinct l

waits-append : (d e : Bytes) (l : List Bytes) → waits d (l ++ e ∷ []) ≡ (waits d l || (e == d))
unfolding waits
waits-append d e [] = ground arith
waits-append d e (x ∷ l) = ground (arith, waits-append d e l)

distinct-append :
    (e : Bytes) (l : List Bytes)
    → distinct l ≡ true
    → waits e l ≡ false
    → distinct (l ++ e ∷ []) ≡ true
unfolding distinct waits
distinct-append e [] h k = refl
distinct-append e (x ∷ l) h k =
    ground (arith, distinct-append e l, waits-append x e l, bytes_eq_iff e x, bytes_eq_iff x e)

distinct-join : (e : Bytes) (l : List Bytes) → distinct l ≡ true → distinct (join e l) ≡ true
distinct-join e l h = ground (arith, distinct-append e l h)

distinct-leave : (e : Bytes) (l : List Bytes) → distinct l ≡ true → distinct (leave e l) ≡ true
unfolding distinct leave
distinct-leave e [] h = refl
distinct-leave e (x ∷ l) h = ground arith

is_empty-heads : (d : Bytes) (l : List Bytes) → heads d l ≡ true → is_empty l ≡ false
unfolding heads
is_empty-heads d [] h = absurd (ground arith)
is_empty-heads d (x ∷ l) h = refl

is_empty-join : (e : Bytes) (l : List Bytes) → is_empty (join e l) ≡ false
unfolding waits
is_empty-join e [] = ground arith
is_empty-join e (x ∷ l) = ground arith

leave-stays : (e : Bytes) (l : List Bytes) → heads e l ≡ false → leave e l ≡ l
unfolding heads leave
leave-stays e [] h = refl
leave-stays e (x ∷ l) h = ground arith

-- The queue of each lock has no client twice, and has a client if the lock is taken.
abbrev pub WellFormed : LockServer → Type 0
WellFormed s =
    (j : ℕ) → (distinct (queue s j) ≡ true) × (taken s j ≡ true → is_empty (queue s j) ≡ false)

table_WellFormed :
    (s : LockServer) (c : Call)
    → WellFormed s
    → (j : ℕ)
    → (distinct ((table_call (table_of s) c).queue_of j) ≡ true)
      × ((table_call (table_of s) c).is_taken j ≡ true
          → is_empty ((table_call (table_of s) c).queue_of j) ≡ false)
unfolding table_call
table_WellFormed s (acquiring clt lid dst xid r) h j = (
  ground (arith, (h j).0, distinct-join dst (queue s j) (h j).0),
  λ t. ground (arith, (h j).1, is_empty-join dst (queue s j)),
)
table_WellFormed s (releasing clt lid dst xid r) h j = (
  ground (arith, (h j).0, distinct-leave dst (queue s j) (h j).0),
  λ t. ground (arith, (h j).1, leave-stays dst (queue s j), Bool-cases (heads dst (queue s j))),
)
table_WellFormed s (revoking p) h j = h j
table_WellFormed s (retrying p) h j = h j

call-WellFormed : (s : LockServer) (c : Call) → WellFormed s → WellFormed (call s c)
call-WellFormed s c h j =
    let (q, b, _) = call-Implements s (table_of s) c (λ i. refl, λ i. refl, λ c l. refl) in
    let (x, y) = table_WellFormed s c h j in
    (
      subst (λ (l : List Bytes). distinct l ≡ true) (sym (q j)) x,
      λ t. ap is_empty (q j) ∙ y (sym (b j) ∙ t),
    )

-- Every call keeps the server well formed: no client is twice in the queue of a lock, and a lock
-- that is taken has a first client in its queue.
pub run-WellFormed : (s : LockServer) (cs : List Call) → WellFormed s → WellFormed (run s cs)
unfolding run
run-WellFormed s [] h = h
run-WellFormed s (c ∷ cs) h = run-WellFormed (call s c) cs (call-WellFormed s c h)

-- A client's place: those before it.
unfoldable pub before : Bytes → List Bytes → List Bytes
before d [] = []
before d (x ∷ l) = let rest = before d l in if x == d then [] else x ∷ rest

before-append :
    (d e : Bytes) (l : List Bytes)
    → waits d l ≡ true
    → (before d (l ++ e ∷ []) ≡ before d l) × (waits d (l ++ e ∷ []) ≡ true)
unfolding before waits
before-append d e [] h = absurd (ground arith)
before-append d e (x ∷ l) h =
    (ground (arith, before-append d e l), ground (arith, before-append d e l))

before-join :
    (d e : Bytes) (l : List Bytes)
    → waits d l ≡ true
    → (before d (join e l) ≡ before d l) × (waits d (join e l) ≡ true)
before-join d e l h = (ground (arith, before-append d e l h), ground (arith, before-append d e l h))

-- The second list is the first without some clients at its front.
pub data Behind (l : List Bytes) : List Bytes → Type 0 where
  all : Behind l l
  after : {x : Bytes} {m : List Bytes} → Behind l (x ∷ m) → Behind l m

Behind-trans : {l m k : List Bytes} → Behind l m → Behind m k → Behind l k
Behind-trans p all = p
Behind-trans p (after q) = after (Behind-trans p q)

Behind-eq : {l m : List Bytes} → l ≡ m → Behind l m
Behind-eq {l} e = subst (λ (k : List Bytes). Behind l k) e all

before-leave :
    (d e : Bytes) (l : List Bytes)
    → waits d l ≡ true
    → (e ≡ d → ⊥)
    → Behind (before d l) (before d (leave e l)) × (waits d (leave e l) ≡ true)
unfolding before leave waits
before-leave d e [] h ne = absurd (ground arith)
before-leave d e (x ∷ l) h ne = elim (Bool-cases (x == e)) [
  | inr f ↦ (Behind-eq (ground arith), ground arith)
  | inl f ↦
      let x≢d : (x == d) ≡ false = ground (arith, bytes_eq_iff x e, bytes_eq_iff x d) in
      let step : before d (x ∷ l) ≡ x ∷ before d (leave e (x ∷ l)) = ground arith in
      (after (Behind-eq step), ground arith)
]

call-before :
    (s : LockServer) (lid : ℕ) (d : Bytes) (c : Call)
    → waits d (queue s lid) ≡ true
    → gives_up lid d c ≡ false
    → Behind (before d (queue s lid)) (before d (queue (call s c) lid))
      × (waits d (queue (call s c) lid) ≡ true)
unfolding table_call gives_up
call-before s lid d c h g =
    let (q, _, _) = call-Implements s (table_of s) c (λ i. refl, λ i. refl, λ a l. refl) in
    subst (λ (l : List Bytes). Behind (before d (queue s lid)) (before d l) × (waits d l ≡ true))
      (sym (q lid)) (place c g)
  where
    place :
        (c : Call)
        → gives_up lid d c ≡ false
        → Behind (before d (queue s lid)) (before d ((table_call (table_of s) c).queue_of lid))
          × (waits d ((table_call (table_of s) c).queue_of lid) ≡ true)
    place (acquiring clt l dst xid r) g =
        let (b, w) = before-join d dst (queue s lid) h in
        elim (Bool-cases (newer s clt l xid && nat_eq l lid)) [
          | inl e ↦ (Behind-eq (ground (arith, b)), ground (arith, w))
          | inr e ↦ (Behind-eq (ground arith), ground arith)
        ]
    place (releasing clt l dst xid r) g = elim (Bool-cases (newer s clt l xid && nat_eq l lid)) [
      | inl e ↦
          let (b, w) =
            before-leave d dst (queue s lid) h (λ z. ground (arith, bytes_eq_iff dst d)) in
          (Behind-trans b (Behind-eq (ground arith)), ground (arith, w))
      | inr e ↦ (Behind-eq (ground arith), ground arith)
    ]
    place (revoking p) g = (all, h)
    place (retrying p) g = (all, h)

run-before :
    (s : LockServer) (lid : ℕ) (d : Bytes) (cs : List Call)
    → waits d (queue s lid) ≡ true
    → All (λ c. gives_up lid d c ≡ false) cs
    → Behind (before d (queue s lid)) (before d (queue (run s cs) lid))
      × (waits d (queue (run s cs) lid) ≡ true)
unfolding run
run-before s lid d [] h g = (all, h)
run-before s lid d (c ∷ cs) h (g, gs) =
    let (b, w) = call-before s lid d c h g in
    let (b', w') = run-before (call s c) lid d cs w gs in (Behind-trans b b', w')

waits-Behind : (e : Bytes) {l m : List Bytes} → Behind l m → waits e m ≡ true → waits e l ≡ true
waits-Behind e all h = h
waits-Behind e (after {x} {m} b) h = waits-Behind e b (unfold waits in ground arith)

-- Where somebody waits, only the first of the queue heads it after joining.
heads-join-waits :
    (d e : Bytes) (l : List Bytes) → waits d l ≡ true → heads e (join e l) ≡ true → heads e l ≡ true
unfolding heads waits
heads-join-waits d e [] h k = absurd (ground arith)
heads-join-waits d e (x ∷ l) h k = ground arith

heads-before :
    (d e : Bytes) (l : List Bytes)
    → heads e l ≡ true
    → (e ≡ d → before d l ≡ []) × (e ≢ d → waits d l ≡ true → waits e (before d l) ≡ true)
unfolding heads before waits
heads-before d e [] h = absurd (ground arith)
heads-before d e (x ∷ l) h = (
  λ q. ground (arith, bytes_eq_iff x e, bytes_eq_iff x d),
  λ q w. ground (arith, bytes_eq_iff x e, bytes_eq_iff x d),
)

acquire-heads :
    (s : LockServer) (clt lid : ℕ) (e : Bytes) (xid r : ℕ)
    → last_xid s clt lid < xid
    → (acquire s clt lid e xid r).status ≡ ok
    → heads e (join e (queue s lid)) ≡ true
acquire-heads s clt lid e xid r new h =
    let (_, _, _, es) = acquire-effect s clt lid e xid r in ground (arith, es)

-- A lock is granted in the order of its queue. Let a client wait in the queue of a lock, and let any
-- calls follow among which is no release of that lock by it. Then it waits still, those before it
-- are those that were before it, without some at the front; and if a new acquire of the lock is
-- then answered with OK, it is that client's own and nobody is before it any more, or it is that of
-- a client that was before it at the start. Whoever asked later is not granted the lock.
pub no_overtaking :
    (s : LockServer) (lid : ℕ) (d : Bytes) (cs : List Call) (clt : ℕ) (e : Bytes) (xid r : ℕ)
    → waits d (queue s lid) ≡ true
    → All (λ c. gives_up lid d c ≡ false) cs
    → last_xid (run s cs) clt lid < xid
    → (waits d (queue (run s cs) lid) ≡ true)
      × Behind (before d (queue s lid)) (before d (queue (run s cs) lid))
      × ((acquire (run s cs) clt lid e xid r).status ≡ ok
          → (e ≡ d → before d (queue (run s cs) lid) ≡ [])
            × (e ≢ d → waits e (before d (queue s lid)) ≡ true))
no_overtaking s lid d cs clt e xid r h g new =
    let t = run s cs in
    let (behind, waiting) = run-before s lid d cs h g in
    (
      waiting,
      behind,
      λ granted.
          let first : heads e (queue t lid) ≡ true =
            heads-join-waits d e (queue t lid) waiting
              (acquire-heads t clt lid e xid r new granted) in
          let (own, other) = heads-before d e (queue t lid) first in
          (own, λ ne. waits-Behind e behind (other ne waiting)),
    )
