-- ===== src/Locks/ReplicatedServer/MapOrder.antt =====
-- What the operations of lock_server_cache_rsm.cc on one map do to its order.
use distributed_system_lab.Base.{
  ℕ, ◌≡◌, sym, subst, inl, inr, Bool, true, false, List, [], ◌∷◌, ltb, nat_eq, length, arith,
  Bool-cases, Option-cases, All,
}
use distributed_system_lab.Base.Tests.{nat_key}
use distributed_system_lab.Base.Bytes.{Bytes, bytes_key}
use distributed_system_lab.Base.Map.{Map, lookup, insert, index, or_else}
use distributed_system_lab.Base.Ordered.{IsOrdered, insert-IsOrdered, index-IsOrdered}
use distributed_system_lab.Locks.ReplicatedServer.{
  write_xid, read_xid, enter_client, revoke_each, retry_each,
}
use distributed_system_lab.Locks.ReplicatedServer.Transfer.{AreOrdered}

All-lookup :
    {V : Type 0} (P : V → Type 0) (d : V) (k : ℕ) (m : Map ℕ V)
    → P d
    → All (λ e. P e.1) m
    → P (or_else (lookup k m) d)
unfolding lookup
All-lookup P d k [] h a = h
All-lookup P d k ((i, v) ∷ m) h (a, b) = elim (Bool-cases (nat_eq i k)) [
  | inl e ↦ subst P (sym (ground arith)) a
  | inr e ↦ subst P (sym (ground arith)) (All-lookup P d k m h b)
]

All-insert :
    {V : Type 0} (P : V → Type 0) (k : ℕ) (v : V) (m : Map ℕ V)
    → P v
    → All (λ e. P e.1) m
    → All (λ e. P e.1) (insert k v m)
unfolding insert
All-insert P k v [] h a = (h, a)
All-insert P k v ((i, w) ∷ m) h (a, b) = elim (Bool-cases (nat_eq i k)) [
  | inl e ↦ subst (All (λ e. P e.1)) (sym (same e)) (h, b)
  | inr e ↦ elim (Bool-cases (ltb k i)) [
    | inl f ↦ subst (All (λ e. P e.1)) (sym (first e f)) (h, (a, b))
    | inr f ↦ subst (All (λ e. P e.1)) (sym (later e f)) (a, All-insert P k v m h b)
  ]
]
  where
    same : nat_eq i k ≡ true → insert k v ((i, w) ∷ m) ≡ (k, v) ∷ m
    same e = ground arith

    first : nat_eq i k ≡ false → ltb k i ≡ true → insert k v ((i, w) ∷ m) ≡ (k, v) ∷ (i, w) ∷ m
    first e f = ground arith

    later : nat_eq i k ≡ false → ltb k i ≡ false → insert k v ((i, w) ∷ m) ≡ (i, w) ∷ insert k v m
    later e f = ground arith

pub empty-IsOrdered : IsOrdered {V = ℕ} []
unfolding IsOrdered
empty-IsOrdered = tt

pub write_xid-AreOrdered :
    (clt lid xid : ℕ) (m : Map ℕ (Map ℕ ℕ)) → AreOrdered m → AreOrdered (write_xid clt lid xid m)
unfolding write_xid
write_xid-AreOrdered clt lid xid m (h, a) =
    let ids = or_else (lookup clt m) [] in
    let inner = insert-IsOrdered lid xid ids (All-lookup IsOrdered [] clt m empty-IsOrdered a) in
    (
      insert-IsOrdered clt (insert lid xid ids) m h,
      All-insert IsOrdered clt (insert lid xid ids) m inner a,
    )

pub read_xid-AreOrdered :
    (clt lid : ℕ) (m : Map ℕ (Map ℕ ℕ)) → AreOrdered m → AreOrdered (read_xid clt lid m).1
unfolding read_xid
read_xid-AreOrdered clt lid m (h, a) =
    let ids = or_else (lookup clt m) [] in
    let inner = index-IsOrdered lid 0 ids (All-lookup IsOrdered [] clt m empty-IsOrdered a) in
    (
      insert-IsOrdered clt (index lid 0 ids).1 m h,
      All-insert IsOrdered clt (index lid 0 ids).1 m inner a,
    )

pub enter_client-AreOrdered :
    (clt lid : ℕ) (m : Map ℕ (Map ℕ ℕ)) → AreOrdered m → AreOrdered (enter_client clt lid m)
unfolding enter_client
enter_client-AreOrdered clt lid m h = elim (Option-cases (lookup clt m)) [
  | inl e ↦ subst AreOrdered (sym (ground arith)) (write_xid-AreOrdered clt lid 0 m h)
  | inr (ids, e) ↦ elim (Option-cases (lookup lid ids)) [
    | inl f ↦ subst AreOrdered (sym (ground arith)) (write_xid-AreOrdered clt lid 0 m h)
    | inr (x, f) ↦ subst AreOrdered (sym (ground arith)) h
  ]
]

pub revoke_each-IsOrdered :
    (locks : Map ℕ Bool) (lists : Map ℕ (List Bytes))
    → IsOrdered lists
    → IsOrdered (revoke_each locks lists).0
unfolding revoke_each
revoke_each-IsOrdered [] lists h = h
revoke_each-IsOrdered ((lid, true) ∷ locks) lists h =
    let read = index lid [] lists in
    let rest = revoke_each-IsOrdered locks read.1 (index-IsOrdered lid [] lists h) in
    elim (Bool-cases (ltb 1 (length read.0))) [
      | inl e ↦ subst IsOrdered (sym (ground arith)) rest
      | inr e ↦ subst IsOrdered (sym (ground arith)) rest
    ]
revoke_each-IsOrdered ((lid, false) ∷ locks) lists h = revoke_each-IsOrdered locks lists h

pub retry_each-IsOrdered :
    (locks : Map ℕ Bool) (lists : Map ℕ (List Bytes))
    → IsOrdered lists
    → IsOrdered (retry_each locks lists).0
unfolding retry_each
retry_each-IsOrdered [] lists h = h
retry_each-IsOrdered ((lid, true) ∷ locks) lists h = retry_each-IsOrdered locks lists h
retry_each-IsOrdered ((lid, false) ∷ locks) lists h =
    let read = index lid [] lists in
    let rest = retry_each-IsOrdered locks read.1 (index-IsOrdered lid [] lists h) in
    elim (Bool-cases (ltb 0 (length read.0))) [
      | inl e ↦ subst IsOrdered (sym (ground arith)) rest
      | inr e ↦ subst IsOrdered (sym (ground arith)) rest
    ]
