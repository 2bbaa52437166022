-- ===== src/Locks/ReplicatedServer/Queue.antt =====
-- The client lists of lock_server_cache_rsm.cc, seen as one queue for each lock.
use distributed_system_lab.Base.{
  ℕ, suc, ◌-◌, ◌≡◌, refl, ap, ◌∙◌, ◌⊎◌, inl, inr, Bool, true, false, Option, none, some, List, [],
  ◌∷◌, ◌++◌, nat_eq, if◌then◌else◌, ◌==◌, length, arith, Bool-cases, Option-cases, is_empty,
}
use distributed_system_lab.Base.Tests.{nat_key}
use distributed_system_lab.Base.Bytes.{Bytes, bytes_key, bytes_eq_iff}
use distributed_system_lab.Base.Map.{
  Map, lookup, insert, index, or_else, lookup-insert, or_else-lookup-index, index-value,
}
use distributed_system_lab.Locks.ReplicatedServer.{
  LockServer, write_xid, read_xid, enter_client, position, enqueue,
}

unfoldable pub queue : LockServer → ℕ → List Bytes
queue s lid = or_else (lookup lid s.lock_client_list) []

unfoldable pub taken : LockServer → ℕ → Bool
taken s lid = or_else (lookup lid s.locks) false

-- The transaction number of the client's last release of the lock.
unfoldable pub last_xid : LockServer → ℕ → ℕ → ℕ
last_xid s clt lid = or_else (lookup lid (or_else (lookup clt s.client_lock_id) [])) 0

-- Whether a client is in a queue.
unfoldable pub waits : Bytes → List Bytes → Bool
waits dst [] = false
waits dst (x ∷ l) = if x == dst then true else waits dst l

-- The end of the queue, unless the client is in it.
abbrev pub join : Bytes → List Bytes → List Bytes
join dst l = if waits dst l then l else l ++ dst ∷ []

-- The queue without its first client, if that is `dst`.
unfoldable pub leave : Bytes → List Bytes → List Bytes
leave dst [] = []
leave dst (x ∷ l) = if x == dst then l else x ∷ l

unfoldable pub heads : Bytes → List Bytes → Bool
heads dst [] = false
heads dst (x ∷ l) = x == dst

position-waits :
    (dst : Bytes) (l : List Bytes)
    → ((waits dst l ≡ false) × (position dst l ≡ none))
      ⊎ ((waits dst l ≡ true) × (i : ℕ) × (position dst l ≡ some i) × (nat_eq i 0 ≡ heads dst l))
unfolding position waits heads
position-waits dst [] = inl (refl, refl)
position-waits dst (x ∷ l) = elim (Bool-cases (x == dst)) [
  | inl e ↦ inr (ground arith, 0, ground arith, ground arith)
  | inr e ↦ elim (position-waits dst l) [
    | inl (f, g) ↦ inl (ground arith, ground arith)
    | inr (f, i, g, h) ↦ inr (ground arith, suc i, ground arith, ground arith)
  ]
]

heads-append :
    (dst : Bytes) (l : List Bytes) → waits dst l ≡ false → heads dst (l ++ dst ∷ []) ≡ is_empty l
unfolding heads waits
heads-append dst [] h = ground (arith, bytes_eq_iff dst dst)
heads-append dst (x ∷ l) h = ground arith

length-snoc : (dst : Bytes) (l : List Bytes) → nat_eq (length (l ++ dst ∷ []) - 1) 0 ≡ is_empty l
length-snoc dst [] = refl
length-snoc dst (x ∷ []) = refl
length-snoc dst (x ∷ y ∷ l) = ground arith

pub enqueue-join :
    (dst : Bytes) (l : List Bytes)
    → ((enqueue dst l).0 ≡ join dst l) × (nat_eq (enqueue dst l).1 0 ≡ heads dst (join dst l))
unfolding enqueue
enqueue-join dst l = elim (position-waits dst l) [
  | inl (f, g) ↦ (ground arith, ground (arith, heads-append dst l f, length-snoc dst l))
  | inr (f, i, g, h) ↦ (ground arith, ground arith)
]

-- The map of the transaction numbers.
abbrev pub xid_in : Map ℕ (Map ℕ ℕ) → ℕ → ℕ → ℕ
xid_in ids clt lid = or_else (lookup lid (or_else (lookup clt ids) [])) 0

module _ (m : Map ℕ (Map ℕ ℕ)) where
  pub xid_in-write_xid :
      (clt lid xid c l : ℕ)
      → xid_in (write_xid clt lid xid m) c l
        ≡ (if nat_eq clt c then if nat_eq lid l then xid else xid_in m c l else xid_in m c l)
  unfolding write_xid
  xid_in-write_xid clt lid xid c l = ground (
    arith,
    lookup-insert clt c (insert lid xid (or_else (lookup clt m) [])) m,
    lookup-insert lid l xid (or_else (lookup clt m) []),
  )

  pub read_xid-value : (clt lid : ℕ) → (read_xid clt lid m).0 ≡ xid_in m clt lid
  unfolding read_xid
  read_xid-value clt lid = index-value lid 0 (or_else (lookup clt m) [])

  pub xid_in-read_xid : (clt lid c l : ℕ) → xid_in (read_xid clt lid m).1 c l ≡ xid_in m c l
  unfolding read_xid
  xid_in-read_xid clt lid c l = ground (
    arith,
    lookup-insert clt c (index lid 0 (or_else (lookup clt m) [])).1 m,
    or_else-lookup-index lid l 0 (or_else (lookup clt m) []),
  )

  enter_client-cases :
      (clt lid : ℕ)
      → (enter_client clt lid m ≡ m)
        ⊎ ((enter_client clt lid m ≡ write_xid clt lid 0 m) × (xid_in m clt lid ≡ 0))
  unfolding enter_client lookup
  enter_client-cases clt lid = elim (Option-cases (lookup clt m)) [
    | inl e ↦
        inr (ground arith, ap (λ (x : Option (Map ℕ ℕ)). or_else (lookup lid (or_else x [])) 0) e)
    | inr (ids, e) ↦ elim (Option-cases (lookup lid ids)) [
      | inl f ↦ inr (ground arith, ground arith)
      | inr (xid, f) ↦ inl (ground arith)
    ]
  ]

  pub xid_in-enter_client : (clt lid c l : ℕ) → xid_in (enter_client clt lid m) c l ≡ xid_in m c l
  xid_in-enter_client clt lid c l = elim (enter_client-cases clt lid) [
    | inl e ↦ ap (λ (x : Map ℕ (Map ℕ ℕ)). xid_in x c l) e
    | inr (e, z) ↦
        ap (λ (x : Map ℕ (Map ℕ ℕ)). xid_in x c l) e
        ∙ ground (arith, xid_in-write_xid clt lid 0 c l)
  ]
