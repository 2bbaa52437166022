-- ===== src/Paxos/Agreement/Chosen.antt =====
-- Agreement: one instance of the Paxos of paxos.cc chooses at most one value.
use distributed_system_lab.Base.{ℕ, sym, subst, ◌⊎◌, inl, inr, List}
use distributed_system_lab.Base.Bytes.{Bytes}
use distributed_system_lab.Paxos.Agreement.{
  Proposal, System, HasLate, prepare, propose, accept, decide, Reach, here, next,
}
use distributed_system_lab.Paxos.Agreement.Invariant.{Inv}
use distributed_system_lab.Paxos.Agreement.Rpcs.{after_prepare-Inv, after_accept-Inv, decided-Inv}
use distributed_system_lab.Paxos.Agreement.Propose.{propose-Inv}

-- A run keeps the invariant, unless a node accepts late.
pub Reach-Inv :
    (i : ℕ) (nodes : List Bytes) {s t : System}
    → Inv i nodes s
    → (r : Reach i nodes s t) → Inv i nodes t ⊎ HasLate r
Reach-Inv i nodes h here = inl h
Reach-Inv i nodes h (next {t} r (prepare a arg x e f)) = elim (Reach-Inv i nodes h r) [
  | inr late ↦ inr late
  | inl k ↦ inl (subst (Inv i nodes) (sym f) (after_prepare-Inv i nodes t k a arg x e))
]
Reach-Inv i nodes h (next {t} r (propose n v l g pos ne fresh answered e large f)) =
    elim (Reach-Inv i nodes h r) [
      | inr late ↦ inr late
      | inl k ↦ inl (
          subst (Inv i nodes) (sym f)
            (propose-Inv i nodes t k n v l g pos ne fresh answered e large))
    ]
Reach-Inv i nodes h (next {t} r (accept a arg x e sent given f)) = elim (Reach-Inv i nodes h r) [
  | inr late ↦ inr (inl late)
  | inl k ↦ elim (after_accept-Inv i nodes t k a arg x sent given) [
    | inr late ↦ inr (inr late)
    | inl m ↦ inl (subst (Inv i nodes) (sym f) m)
  ]
]
Reach-Inv i nodes h (next {t} r (decide a arg x e d f)) = elim (Reach-Inv i nodes h r) [
  | inr late ↦ inr late
  | inl k ↦ inl (subst (Inv i nodes) (sym f) (decided-Inv i nodes t k a arg x e d))
]
