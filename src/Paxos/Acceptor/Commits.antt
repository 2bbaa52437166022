-- ===== src/Paxos/Acceptor/Commits.antt =====
-- What an acceptor of paxos.cc has committed.
use distributed_system_lab.Base.{
  subst_some, ℕ, ◌≤◌, ◌≡◌, refl, ◌∙◌, inl, inr, some, List, [], ◌∷◌, arith, Option-cases,
}
use distributed_system_lab.Base.Bytes.{Bytes}
use distributed_system_lab.Base.Map.{or_else, lookup, lookup-insert, or_else-lookup-index}
use distributed_system_lab.Base.Tests.{nat_key}
use distributed_system_lab.Paxos.State.{Acceptor}
use distributed_system_lab.Paxos.Acceptor.{
  PrepareArg, PrepareRes, AcceptArg, DecideArg, preparereq, acceptreq, decidereq, commit_wo, commit,
  value,
}
use distributed_system_lab.Paxos.Acceptor.Calls.{
  Call, prepare, accept, decide, commits, reads, step, run,
}

-- What `value` returns.
abbrev pub value_of : Acceptor → ℕ → Bytes
value_of s i = or_else (lookup i s.values) []

-- Nothing that is decided changes.
pub record Keeps (s t : Acceptor) : Type 0 where
  pub later : s.instance_h ≤ t.instance_h
  pub same : (i : ℕ) → i ≤ s.instance_h → value_of t i ≡ value_of s i

Keeps-refl : (s : Acceptor) → Keeps s s
Keeps-refl s = record { later = omega arith; same = λ i h. refl }

Keeps-trans : (s t u : Acceptor) → Keeps s t → Keeps t u → Keeps s u
Keeps-trans s t u h k = record {
  later = omega (arith, h.later, k.later);
  same = λ i le. k.same i (omega (arith, h.later)) ∙ h.same i le;
}

preparereq-Keeps : (s : Acceptor) (a : PrepareArg) (r : PrepareRes) → Keeps s (preparereq s a r).0
unfolding preparereq
preparereq-Keeps s a r = record {
  later = ground arith;
  same = λ i h. ground (arith, or_else-lookup-index a.instance_no i [] s.values);
}

acceptreq-Keeps : (s : Acceptor) (a : AcceptArg) → Keeps s (acceptreq s a).0
unfolding acceptreq
acceptreq-Keeps s a = record { later = ground arith; same = λ i h. ground arith }

commit_wo-Keeps : (s : Acceptor) (i : ℕ) (v : Bytes) → Keeps s (commit_wo s i v)
unfolding commit_wo
commit_wo-Keeps s i v = record {
  later = ground arith;
  same = λ j h. ground (arith, lookup-insert i j v s.values);
}

decidereq-Keeps : (s t : Acceptor) (a : DecideArg) → decidereq s a ≡ some t → Keeps s t
unfolding decidereq
decidereq-Keeps s t a e = record {
  later = ground (arith, (commit_wo-Keeps s a.instance_no s.v_a).later);
  same = λ i h. ground (arith, (commit_wo-Keeps s a.instance_no s.v_a).same i h);
}

value-Keeps : (s : Acceptor) (i : ℕ) → Keeps s (value s i).1
unfolding value
value-Keeps s i = record {
  later = ground arith;
  same = λ j h. ground (arith, or_else-lookup-index i j [] s.values);
}

pub step-Keeps : (s t : Acceptor) (c : Call) → step s c ≡ some t → Keeps s t
unfolding step commit
step-Keeps s t (prepare a r) e = subst_some (Keeps s) (preparereq-Keeps s a r) e
step-Keeps s t (accept a) e = subst_some (Keeps s) (acceptreq-Keeps s a) e
step-Keeps s t (decide a) e = decidereq-Keeps s t a e
step-Keeps s t (commits i v) e = subst_some (Keeps s) (commit_wo-Keeps s i v) e
step-Keeps s t (reads i) e = subst_some (Keeps s) (value-Keeps s i) e

-- As long as an acceptor only serves prepare, accept and decide requests, commits and reads, that
-- is, is not restored from the log of another node (acceptor::restore): its number of decided
-- instances never falls, and the value of each decided instance never changes.
pub run-Keeps : (s t : Acceptor) (cs : List Call) → run s cs ≡ some t → Keeps s t
unfolding run
run-Keeps s t [] e = subst_some (Keeps s) (Keeps-refl s) e
run-Keeps s t (c ∷ cs) e = elim (Option-cases (step s c)) [
  | inl f ↦ absurd (ground arith)
  | inr (u, f) ↦ Keeps-trans s u t (step-Keeps s u c f) (run-Keeps u t cs (ground arith))
]
