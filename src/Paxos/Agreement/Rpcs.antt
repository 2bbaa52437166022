-- ===== src/Paxos/Agreement/Rpcs.antt =====
-- The RPCs of paxos.cc keep the invariant of one instance.
use distributed_system_lab.Base.{
  ℕ, suc, ◌≤◌, ◌<◌, ◌≡◌, refl, sym, ap, subst, ◌∙◌, ◌≢◌, ◌⊎◌, inl, inr, true, some, List, ◌∷◌,
  arith, In, Bool-cases, ◌==◌,
}
use distributed_system_lab.Base.Bytes.{Bytes, bytes_key, bytes_eq_iff}
use distributed_system_lab.Paxos.Proposal.{PropT, prop_gt, prop_ge, prop_ge_trans}
use distributed_system_lab.Paxos.State.{Acceptor}
use distributed_system_lab.Paxos.Acceptor.{
  PrepareArg, PrepareRes, AcceptArg, DecideArg, preparereq, acceptreq, decidereq, commit_wo,
}
use distributed_system_lab.Paxos.Agreement.{
  Promise, Vote, System, update, after_prepare, after_accept, IsLate,
}
use distributed_system_lab.Paxos.Agreement.Invariant.{IsOpen, IsTracked, IsReport, Inv}
use distributed_system_lab.Paxos.Agreement.Steps.{
  IsOpen-promise_other, IsOpen-vote_other, IsOpen-promise_own, IsOpen-vote_own, IsReport-vote,
  AreSafe-promise, AreSafe-vote, preparereq_cases, IsTracked-cong,
}

-- A property of every acceptor after one of them has changed.
update_all :
    (P : Bytes → Acceptor → Type 0) (f : Bytes → Acceptor) (a : Bytes) (x : Acceptor)
    → P a x
    → ((b : Bytes) → a ≢ b → P b (f b))
    → (b : Bytes) → P b (update f a x b)
update_all P f a x h k b = elim (Bool-cases (a == b)) [
  | inl e ↦ rw e (subst (λ c. P c x) ((bytes_eq_iff a b).0 e) h)
  | inr e ↦ rw e (k b (λ q. ground (arith, bytes_eq_iff a b)))
]

module _ (i : ℕ) (nodes : List Bytes) (s : System) (inv : Inv i nodes s) where
  -- One acceptor has changed in nothing that matters, and the history is the same.
  quiet-Inv :
      (a : Bytes) (x : Acceptor)
      → x.n_h ≡ (s.acceptor_of a).n_h
      → x.n_a ≡ (s.acceptor_of a).n_a
      → x.v_a ≡ (s.acceptor_of a).v_a
      → x.instance_h ≡ (s.acceptor_of a).instance_h
      → Inv i nodes (record s { acceptor_of = update s.acceptor_of a x })
  quiet-Inv a x e f g h = record {
    tracked =
        update_all (IsTracked i s.promises s.votes) s.acceptor_of a x
          (IsTracked-cong i s.promises s.votes a (s.acceptor_of a) x e f g h (inv.tracked a))
          (λ b ne. inv.tracked b);
    reports = inv.reports;
    proposed = inv.proposed;
    safe = inv.safe;
  }

  -- One acceptor has decided the instance.
  closed-Inv :
      (a : Bytes) (x : Acceptor)
      → i ≤ x.instance_h
      → Inv i nodes (record s { acceptor_of = update s.acceptor_of a x })
  closed-Inv a x h = record {
    tracked =
        update_all (IsTracked i s.promises s.votes) s.acceptor_of a x (inl h)
          (λ b ne. inv.tracked b);
    reports = inv.reports;
    proposed = inv.proposed;
    safe = inv.safe;
  }

  -- An acceptor that has not decided the instance promises, and reports its latest vote.
  promise-Inv :
      (a : Bytes) (x : Acceptor) (n : PropT) (res : PrepareRes)
      → (s.acceptor_of a).instance_h < i
      → prop_gt n (s.acceptor_of a).n_h ≡ true
      → x.n_h ≡ n
      → x.n_a ≡ (s.acceptor_of a).n_a
      → x.v_a ≡ (s.acceptor_of a).v_a
      → x.instance_h ≡ (s.acceptor_of a).instance_h
      → res.n_a ≡ (s.acceptor_of a).n_a
      → res.v_a ≡ (s.acceptor_of a).v_a
      → Inv i nodes (record s {
        acceptor_of = update s.acceptor_of a x;
        promises = record { node = a; number = n; reply = res } ∷ s.promises;
      })
  promise-Inv a x n res open_ up e f g h j k = go (inv.tracked a)
    where
      p : Promise
      p = record { node = a; number = n; reply = res }

      other : (b : Bytes) → a ≢ b → IsTracked i (p ∷ s.promises) s.votes b (s.acceptor_of b)
      other b ne = elim (inv.tracked b) [
        | inl c ↦ inl c
        | inr (o, t) ↦ inr (o, IsOpen-promise_other s.promises s.votes b p _ _ _ ne t)
      ]

      report :
          IsOpen s.promises s.votes a
            (s.acceptor_of a).n_h
            (s.acceptor_of a).n_a
            (s.acceptor_of a).v_a
          → IsReport s.votes p
      report o = record {
        above = λ v l q lt. subst (λ m. prop_ge m v.number ≡ true) (sym j) (o.highest v l q);
        reported = elim o.latest [
          | inl (z, w, none_) ↦ inl (ap (λ (m : PropT). m.n) j ∙ z, k ∙ w)
          | inr l ↦ inr (rw (j, k) l)
        ];
      }

      go :
          IsTracked i s.promises s.votes a (s.acceptor_of a)
          → Inv i nodes
              (record s { acceptor_of = update s.acceptor_of a x; promises = p ∷ s.promises })
      go (inl c) = absurd (omega arith)
      go (inr (o, t)) = record {
        tracked =
            update_all (IsTracked i (p ∷ s.promises) s.votes) s.acceptor_of a x
              (IsTracked-cong i (p ∷ s.promises) s.votes a (record (s.acceptor_of a) { n_h = n }) x
                e f g h (inr (o, IsOpen-promise_own s.promises s.votes a p _ _ _ up t)))
              other;
        reports = λ q l. elim l [
          | inl r ↦ subst (IsReport s.votes) (sym r) (report t)
          | inr r ↦ inv.reports q r
        ];
        proposed = inv.proposed;
        safe = AreSafe-promise nodes s.promises s.votes p s.proposals inv.safe;
      }

  -- An acceptor that has promised the number, and nothing above it, votes for a proposal.
  vote-Inv :
      (a : Bytes) (x : Acceptor) (k : PropT) (u : Bytes) (p : Promise)
      → suc (s.acceptor_of a).instance_h ≡ i
      → In (record { number = k; value = u }) s.proposals
      → In p s.promises
      → p.node ≡ a
      → p.number ≡ k
      → prop_ge k (s.acceptor_of a).n_h ≡ true
      → x.n_h ≡ (s.acceptor_of a).n_h
      → x.n_a ≡ k
      → x.v_a ≡ u
      → x.instance_h ≡ (s.acceptor_of a).instance_h
      → Inv i nodes (record s {
        acceptor_of = update s.acceptor_of a x;
        votes = record { node = a; number = k; value = u } ∷ s.votes;
      })
  vote-Inv a x k u p open_ sent given own num up e f g h = go (inv.tracked a)
    where
      v : Vote
      v = record { node = a; number = k; value = u }

      other : (b : Bytes) → a ≢ b → IsTracked i s.promises (v ∷ s.votes) b (s.acceptor_of b)
      other b ne = elim (inv.tracked b) [
        | inl c ↦ inl c
        | inr (o, t) ↦ inr (o, IsOpen-vote_other s.promises s.votes b v _ _ _ ne t)
      ]

      go :
          IsTracked i s.promises s.votes a (s.acceptor_of a)
          → Inv i nodes (record s { acceptor_of = update s.acceptor_of a x; votes = v ∷ s.votes })
      go (inl c) = absurd (omega arith)
      go (inr (o, t)) =
          let down : prop_ge (s.acceptor_of a).n_h k ≡ true =
            subst (λ m. prop_ge (s.acceptor_of a).n_h m ≡ true) num (t.promised p given own) in
          let over : (q : Promise) → In q s.promises → q.node ≡ a → prop_ge k q.number ≡ true =
            λ q l r. prop_ge_trans k (s.acceptor_of a).n_h q.number up (t.promised q l r) in
          record {
            tracked =
                update_all (IsTracked i s.promises (v ∷ s.votes)) s.acceptor_of a x
                  (IsTracked-cong i s.promises (v ∷ s.votes) a
                    (record (s.acceptor_of a) { n_a = k; v_a = u }) x e f g h
                    (inr (o, IsOpen-vote_own s.promises s.votes a k u _ _ _ up down t)))
                  other;
            reports = λ q l. IsReport-vote s.votes v q (λ r. over q l (sym r)) (inv.reports q l);
            proposed = λ w l. elim l [
              | inl r ↦
                  subst
                    (λ (y : Vote). In (record { number = y.number; value = y.value }) s.proposals)
                    (sym r) sent
              | inr r ↦ inv.proposed w r
            ];
            safe = AreSafe-vote nodes s.promises s.votes v s.proposals over inv.safe;
          }

  pub after_prepare-Inv :
      (a : Bytes) (arg : PrepareArg) (r : PrepareRes)
      → arg.instance_no ≡ i
      → Inv i nodes (after_prepare s a arg r)
  unfolding after_prepare
  after_prepare-Inv a arg r e =
      let (f, g, h, cases) = preparereq_cases (s.acceptor_of a) arg r in
      elim cases [
        | inl (no_, k) ↦ rw no_ (quiet-Inv a (preparereq (s.acceptor_of a) arg r).0 k f g h)
        | inr (ok, open_, up, k, m, w) ↦ rw ok (
            promise-Inv a (preparereq (s.acceptor_of a) arg r).0 arg.n
              (preparereq (s.acceptor_of a) arg r).1 (omega arith) up k f g h m w)
      ]

  -- Where the node does not accept late.
  pub after_accept-Inv :
      (a : Bytes) (arg : AcceptArg) (r : PrepareRes)
      → In (record { number = arg.n; value = arg.v }) s.proposals
      → In (record { node = a; number = arg.n; reply = r }) s.promises
      → Inv i nodes (after_accept s a arg) ⊎ IsLate i s a arg
  unfolding after_accept acceptreq
  after_accept-Inv a arg r sent given = elim (Bool-cases (prop_ge arg.n (s.acceptor_of a).n_h)) [
    | inr no_ ↦ inl (rw no_ (quiet-Inv a (s.acceptor_of a) refl refl refl refl))
    | inl ok ↦ elim (inv.tracked a) [
      | inl decided ↦ inr (decided, ground arith)
      | inr (open_, _) ↦
          inl (rw ok (vote-Inv a _ arg.n arg.v _ open_ sent given refl refl ok refl refl refl refl))
    ]
  ]

  pub decided-Inv :
      (a : Bytes) (arg : DecideArg) (x : Acceptor)
      → arg.instance_no ≡ i
      → decidereq (s.acceptor_of a) arg ≡ some x
      → Inv i nodes (record s { acceptor_of = update s.acceptor_of a x })
  unfolding decidereq commit_wo
  decided-Inv a arg x e d = closed-Inv a x (ground arith)
