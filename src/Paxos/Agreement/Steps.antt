-- ===== src/Paxos/Agreement/Steps.antt =====
-- The RPCs keep the invariant of one instance of Paxos.
use mathlib.Core.Path.{subst₃}
use distributed_system_lab.Base.{
  ℕ, ◌<◌, ◌≡◌, refl, sym, ◌≢◌, ◌⊎◌, inl, inr, true, false, List, [], ◌∷◌, arith, In, Bool-cases,
  leb,
}
use distributed_system_lab.Base.Bytes.{Bytes, bytes_key}
use distributed_system_lab.Paxos.Proposal.{
  PropT, prop_gt, prop_ge, prop_ge_refl, prop_ge_of_gt, prop_ge_trans, prop_ge-not-gt,
}
use distributed_system_lab.Paxos.State.{Acceptor}
use distributed_system_lab.Paxos.Acceptor.{PrepareArg, PrepareRes, preparereq}
use distributed_system_lab.Paxos.Agreement.{Promise, Proposal, Vote}
use distributed_system_lab.Paxos.Agreement.Invariant.{IsOpen, IsTracked, IsReport, AreSafe}

-- Another node's promise and another node's vote do not concern an acceptor.
pub IsOpen-promise_other :
    (ps : List Promise) (vs : List Vote) (a : Bytes) (p : Promise) (h m : PropT) (w : Bytes)
    → p.node ≢ a
    → IsOpen ps vs a h m w
    → IsOpen (p ∷ ps) vs a h m w
IsOpen-promise_other ps vs a p h m w ne o = record {
  promised = λ q i e. elim i [ inl f ↦ absurd (ne (ground arith)) | inr f ↦ o.promised q f e ];
  highest = o.highest;
  latest = o.latest;
  within = o.within;
}

pub IsOpen-vote_other :
    (ps : List Promise) (vs : List Vote) (a : Bytes) (v : Vote) (h m : PropT) (w : Bytes)
    → v.node ≢ a
    → IsOpen ps vs a h m w
    → IsOpen ps (v ∷ vs) a h m w
IsOpen-vote_other ps vs a v h m w ne o = record {
  promised = o.promised;
  highest = λ u i e. elim i [ inl f ↦ absurd (ne (ground arith)) | inr f ↦ o.highest u f e ];
  latest = elim o.latest [
    | inl (z, n, none_) ↦
        inl (z, n, λ u i. elim i [ inl f ↦ λ e. ne (ground arith) | inr f ↦ none_ u f ])
    | inr i ↦ inr (inr i)
  ];
  within = o.within;
}

-- An acceptor raises its promise.
pub IsOpen-promise_own :
    (ps : List Promise) (vs : List Vote) (a : Bytes) (p : Promise) (h m : PropT) (w : Bytes)
    → prop_gt p.number h ≡ true
    → IsOpen ps vs a h m w
    → IsOpen (p ∷ ps) vs a p.number m w
IsOpen-promise_own ps vs a p h m w up o = record {
  promised = λ q i e. elim i [
    | inl f ↦ ground (arith, prop_ge_refl p.number)
    | inr f ↦ prop_ge_trans p.number h q.number (prop_ge_of_gt p.number h up) (o.promised q f e)
  ];
  highest = o.highest;
  latest = o.latest;
  within = prop_ge_trans p.number h m (prop_ge_of_gt p.number h up) o.within;
}

-- An acceptor votes, at the number that it has promised.
pub IsOpen-vote_own :
    (ps : List Promise) (vs : List Vote) (a : Bytes) (k : PropT) (u : Bytes) (h m : PropT)
    (w : Bytes)
    → prop_ge k h ≡ true
    → prop_ge h k ≡ true
    → IsOpen ps vs a h m w
    → IsOpen ps (record { node = a; number = k; value = u } ∷ vs) a h k u
IsOpen-vote_own ps vs a k u h m w up down o = record {
  promised = o.promised;
  highest = λ v i e. elim i [
    | inl f ↦ ground (arith, prop_ge_refl k)
    | inr f ↦ prop_ge_trans k h v.number up (prop_ge_trans h m v.number o.within (o.highest v f e))
  ];
  latest = inr (inl refl);
  within = down;
}

-- A vote at or above every promise of its node leaves the reports right.
pub IsReport-vote :
    (vs : List Vote) (v : Vote) (p : Promise)
    → (v.node ≡ p.node → prop_ge v.number p.number ≡ true)
    → IsReport vs p
    → IsReport (v ∷ vs) p
IsReport-vote vs v p k r = record {
  above = λ u i e lt. elim i [
    | inl f ↦ absurd (ground (arith, prop_ge-not-gt v.number p.number))
    | inr f ↦ r.above u f e lt
  ];
  reported = elim r.reported [ inl z ↦ inl z | inr i ↦ inr (inr i) ];
}

-- What has been promised stays promised, and a vote at or above every promise of its node takes
-- nothing from a proposal.
pub AreSafe-promise :
    (nodes : List Bytes) (ps : List Promise) (vs : List Vote) (p : Promise) (es : List Proposal)
    → AreSafe nodes ps vs es
    → AreSafe nodes (p ∷ ps) vs es
AreSafe-promise nodes ps vs p [] h = tt
AreSafe-promise nodes ps vs p (e ∷ es) (a, b, c, back, rest) = (
  a,
  b,
  c,
  record {
    quorum = back.quorum;
    large = back.large;
    promised = λ m i. let (q, j, f, g) = back.promised m i in (q, inr j, f, g);
    carried = back.carried;
  },
  AreSafe-promise nodes ps vs p es rest,
)

pub AreSafe-vote :
    (nodes : List Bytes) (ps : List Promise) (vs : List Vote) (v : Vote) (es : List Proposal)
    → ((p : Promise) → In p ps → p.node ≡ v.node → prop_ge v.number p.number ≡ true)
    → AreSafe nodes ps vs es
    → AreSafe nodes ps (v ∷ vs) es
AreSafe-vote nodes ps vs v [] k h = tt
AreSafe-vote nodes ps vs v (e ∷ es) k (a, b, c, back, rest) = (
  a,
  b,
  c,
  record {
    quorum = back.quorum;
    large = back.large;
    promised = back.promised;
    carried = λ u i m lt. elim i [
      | inr f ↦ back.carried u f m lt
      | inl f ↦
          let (q, j, g, w) = back.promised v.node (ground arith) in
          absurd (ground (arith, k q j g, prop_ge-not-gt v.number e.number))
    ];
  },
  AreSafe-vote nodes ps vs v es k rest,
)

-- What a prepare request does to the members that matter.
pub preparereq_cases :
    (s : Acceptor) (a : PrepareArg) (r : PrepareRes)
    → let t = preparereq s a r in
      (t.0.n_a ≡ s.n_a)
      × (t.0.v_a ≡ s.v_a)
      × (t.0.instance_h ≡ s.instance_h)
      × (((t.1.accept ≡ false) × (t.0.n_h ≡ s.n_h))
          ⊎ ((t.1.accept ≡ true)
              × (s.instance_h < a.instance_no)
              × (prop_gt a.n s.n_h ≡ true)
              × (t.0.n_h ≡ a.n)
              × (t.1.n_a ≡ s.n_a)
              × (t.1.v_a ≡ s.v_a)))
unfolding preparereq
preparereq_cases s a r = elim (Bool-cases (leb a.instance_no s.instance_h)) [
  | inl e ↦ (ground arith, ground arith, ground arith, inl (ground arith, ground arith))
  | inr e ↦ elim (Bool-cases (prop_gt a.n s.n_h)) [
    | inl f ↦ (
      ground arith,
      ground arith,
      ground arith,
      inr (ground arith, ground arith, f, ground arith, ground arith, ground arith),
    )
    | inr f ↦ (ground arith, ground arith, ground arith, inl (ground arith, ground arith))
  ]
]

pub IsTracked-cong :
    (i : ℕ) (ps : List Promise) (vs : List Vote) (a : Bytes) (x y : Acceptor)
    → y.n_h ≡ x.n_h
    → y.n_a ≡ x.n_a
    → y.v_a ≡ x.v_a
    → y.instance_h ≡ x.instance_h
    → IsTracked i ps vs a x
    → IsTracked i ps vs a y
IsTracked-cong i ps vs a x y e f g h (inl c) = inl (omega arith)
IsTracked-cong i ps vs a x y e f g h (inr (o, k)) =
    inr (omega arith, subst₃ (λ n m w. IsOpen ps vs a n m w) (sym e) (sym f) (sym g) k)
