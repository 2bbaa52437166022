-- ===== src/Paxos/Acceptor/Promise.antt =====
-- What an acceptor of paxos.cc promises when it answers a prepare request.
use distributed_system_lab.Base.{
  ℕ, ◌<◌, ◌≡◌, ◌⊎◌, inl, inr, true, false, some, List, [], ◌∷◌, arith, Option-cases,
}
use distributed_system_lab.Base.Bytes.{Bytes}
use distributed_system_lab.Paxos.Proposal.{
  prop_gt, prop_ge, prop_ge_refl, prop_ge_trans, prop_ge_of_gt, prop_ge-not-gt, prop_gt_of_ge-gt,
}
use distributed_system_lab.Paxos.State.{Acceptor}
use distributed_system_lab.Paxos.Acceptor.{
  PrepareArg, PrepareRes, AcceptArg, DecideArg, preparereq, acceptreq, decidereq, commit_wo, commit,
  value,
}
use distributed_system_lab.Paxos.Acceptor.Calls.{
  Call, prepare, accept, decide, commits, reads, step, run,
}

-- The instance grows, or it stays and so does the promise or a higher one.
abbrev pub Advances : Acceptor → Acceptor → Type 0
Advances s t =
    (s.instance_h < t.instance_h) ⊎ ((t.instance_h ≡ s.instance_h) × (prop_ge t.n_h s.n_h ≡ true))

preparereq-Advances :
    (s : Acceptor) (a : PrepareArg) (r : PrepareRes) → Advances s (preparereq s a r).0
unfolding preparereq
preparereq-Advances s a r = ground (arith, prop_ge_refl s.n_h, prop_ge_of_gt a.n s.n_h)

acceptreq-Advances : (s : Acceptor) (a : AcceptArg) → Advances s (acceptreq s a).0
unfolding acceptreq
acceptreq-Advances s a = ground (arith, prop_ge_refl s.n_h)

commit_wo-Advances : (s : Acceptor) (i : ℕ) (v : Bytes) → Advances s (commit_wo s i v)
unfolding commit_wo
commit_wo-Advances s i v = ground (arith, prop_ge_refl s.n_h)

decidereq-Advances : (s t : Acceptor) (a : DecideArg) → decidereq s a ≡ some t → Advances s t
unfolding decidereq
decidereq-Advances s t a e =
    ground (arith, commit_wo-Advances s a.instance_no s.v_a, prop_ge_refl s.n_h)

step-Advances : (s t : Acceptor) (c : Call) → step s c ≡ some t → Advances s t
unfolding step commit value
step-Advances s t (prepare a r) e = ground (arith, preparereq-Advances s a r)
step-Advances s t (accept a) e = ground (arith, acceptreq-Advances s a)
step-Advances s t (decide a) e = decidereq-Advances s t a e
step-Advances s t (commits i v) e = ground (arith, commit_wo-Advances s i v)
step-Advances s t (reads i) e = ground (arith, prop_ge_refl s.n_h)

Advances-trans : (s t u : Acceptor) → Advances s t → Advances t u → Advances s u
Advances-trans s t u h k = ground (arith, prop_ge_trans u.n_h t.n_h s.n_h)

-- An acceptor never goes back: over any calls the instance grows, or it stays and the highest
-- proposal seen does not fall.
pub run-Advances : (s t : Acceptor) (cs : List Call) → run s cs ≡ some t → Advances s t
unfolding run
run-Advances s t [] e = ground (arith, prop_ge_refl s.n_h)
run-Advances s t (c ∷ cs) e = elim (Option-cases (step s c)) [
  | inl f ↦ absurd (ground arith)
  | inr (u, f) ↦ Advances-trans s u t (step-Advances s u c f) (run-Advances u t cs (ground arith))
]

-- After the acceptor has accepted a prepare request for `a`, whatever calls follow while no
-- instance is committed, an accept request below `a.n` is refused and changes nothing, and so is a
-- prepare request that is not above `a.n`, for an instance that is not decided.
pub promise_kept :
    (s t : Acceptor) (a : PrepareArg) (r r' : PrepareRes) (cs : List Call) (b : AcceptArg)
    (p : PrepareArg)
    → (preparereq s a r).1.accept ≡ true
    → run (preparereq s a r).0 cs ≡ some t
    → t.instance_h ≡ s.instance_h
    → prop_gt a.n b.n ≡ true
    → prop_ge a.n p.n ≡ true
    → t.instance_h < p.instance_no
    → (acceptreq t b ≡ (t, false))
      × (preparereq t p r' ≡ (t, record r' { oldinstance = false; accept = false }))
unfolding preparereq acceptreq
promise_kept s t a r r' cs b p yes_ e same lower lower' open_ =
    let promised : Advances (preparereq s a r).0 t = run-Advances (preparereq s a r).0 t cs e in
    (
      ground (arith, promised, prop_ge-not-gt b.n t.n_h, prop_gt_of_ge-gt t.n_h a.n b.n),
      ground (arith, promised, prop_ge-not-gt t.n_h p.n, prop_ge_trans t.n_h a.n p.n),
    )
