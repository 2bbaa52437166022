-- ===== src/Locks/CachingClient/Phases.antt =====
-- Who uses a lock among the threads of a client of lock_client_cache_rsm.cc, and what must hold of it.
use distributed_system_lab.Base.{
  ℕ, ◌≡◌, ap, subst, inl, inr, Bool, true, false, nat_eq, arith, Bool-cases,
}
use distributed_system_lab.Base.Tests.{nat_key}
use distributed_system_lab.Locks.CachingClient.{
  LockStatus, is_none, is_free, is_locked, is_acquiring, is_releasing, is_retry, status,
}
use distributed_system_lab.Locks.CachingClient.Threads.{
  Phase, outside, calling, waiting, holding, Threads, moved,
}

abbrev pub busy : Phase → Bool
busy outside = false
busy calling = true
busy waiting = true
busy holding = true

-- The lock is with nobody.
abbrev pub at_rest : LockStatus → Bool
at_rest is_none = true
at_rest is_free = true
at_rest is_locked = false
at_rest is_acquiring = false
at_rest is_releasing = false
at_rest is_retry = false

abbrev pub Alone : (ℕ → Phase) → Type 0
Alone f = (i j : ℕ) → busy (f i) ≡ true → busy (f j) ≡ true → i ≡ j

abbrev pub AllIdle : (ℕ → Phase) → Type 0
AllIdle f = (i : ℕ) → busy (f i) ≡ false

pub record Good (lid : ℕ) (s : Threads) : Type 0 where
  pub alone : Alone s.phase
  pub idle : at_rest (status s.client lid) ≡ true → AllIdle s.phase
  pub resting : at_rest (status s.client lid) ≡ true → s.releasing ≡ false
  pub apart : s.releasing ≡ true → AllIdle s.phase
  pub owns : (i : ℕ) → s.phase i ≡ holding → s.owned ≡ true
  pub kept : status s.client lid ≡ is_free → s.owned ≡ true

-- The phases.
pub moved-alone :
    (f : ℕ → Phase) (i : ℕ) (p : Phase) → Alone f → busy (f i) ≡ true → Alone (moved f i p)
moved-alone f i p a b j k x y = a j k (was j x) (was k y)
  where
    was : (j : ℕ) → busy (moved f i p j) ≡ true → busy (f j) ≡ true
    was j x = elim (Bool-cases (nat_eq i j)) [
      | inl e ↦ (let same : i ≡ j = ground arith in subst (λ (n : ℕ). busy (f n) ≡ true) same b)
      | inr e ↦ ground (arith, e, x)
    ]

pub entered-alone : (f : ℕ → Phase) (i : ℕ) (p : Phase) → AllIdle f → Alone (moved f i p)
entered-alone f i p idle j k x y =
    let first = only j x in let second = only k y in omega (arith, first, second)
  where
    only : (j : ℕ) → busy (moved f i p j) ≡ true → i ≡ j
    only j x = ground (arith, idle j, x)

pub left-idle : (f : ℕ → Phase) (i : ℕ) → Alone f → busy (f i) ≡ true → AllIdle (moved f i outside)
left-idle f i a b j = elim (Bool-cases (nat_eq i j)) [
  | inl e ↦ ground (arith, e)
  | inr e ↦ elim (Bool-cases (busy (f j))) [
    | inr k ↦ ground (arith, e, k)
    | inl k ↦ absurd (ground (arith, e, a i j b k))
  ]
]

holding-busy : (p : Phase) → p ≡ holding → busy p ≡ true
holding-busy p e = ap busy e

-- A thread that is moved to a phase other than holding holds nothing.
pub moved-owns :
    (f : ℕ → Phase) (i : ℕ) (p : Phase) (owned : Bool)
    → (p ≡ holding → owned ≡ true)
    → ((j : ℕ) → f j ≡ holding → owned ≡ true)
    → (j : ℕ) → moved f i p j ≡ holding
    → owned ≡ true
moved-owns f i p owned at_i h j e = elim (Bool-cases (nat_eq i j)) [
  | inl k ↦ at_i (ground (arith, k, e))
  | inr k ↦ h j (ground (arith, k, e))
]
