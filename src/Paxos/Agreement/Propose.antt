-- ===== src/Paxos/Agreement/Propose.antt =====
-- proposer::run of paxos.cc, between its two phases, keeps the invariant of one instance.
use distributed_system_lab.Base.{
  ℕ, ◌<◌, ◌≡◌, refl, sym, ap, subst, ◌≢◌, inl, inr, true, false, none, some, List, [], ◌∷◌, arith,
  In, All, Bool-cases, ◌==◌,
}
use distributed_system_lab.Base.Bytes.{Bytes, bytes_key, bytes_eq_iff}
use distributed_system_lab.Paxos.Proposal.{PropT, prop_ge, prop_ge_trans, prop_ge-n}
use distributed_system_lab.Paxos.Acceptor.{PrepareRes}
use distributed_system_lab.Paxos.Members.{isamember, majority}
use distributed_system_lab.Paxos.Proposer.{Gathered, granted, start, prepare_loop}
use distributed_system_lab.Paxos.Proposer.Gather.{Answer, Gathers, prepare_loop-Gathers}
use distributed_system_lab.Paxos.Agreement.{Promise, Proposal, Vote, System, Answered, value_for}
use distributed_system_lab.Paxos.Agreement.Invariant.{IsBacked, AreSafe, Inv}

-- An answer that accepts comes from a promise.
promise_of :
    (ps : List Promise) (n : PropT) (l : List Answer) (c : Bytes) (r : PrepareRes)
    → Answered ps n l
    → In (c, some (true, r)) l
    → r.accept ≡ true
    → In (record { node = c; number = n; reply = r }) ps
promise_of ps n [] c r h i e = absurd i
promise_of ps n ((d, some (true, q)) ∷ l) c r h i e = elim i [
  | inl f ↦ rw (ap (λ (y : Answer). y.0) f, reply_eq f) (h.0 (rw (← reply_eq f) e))
  | inr f ↦ promise_of ps n l c r h.1 f e
]
  where
    reply_eq : (◌≡◌ {A = Answer} (c, some (true, r)) (d, some (true, q))) → r ≡ q
    reply_eq f = ground arith
promise_of ps n ((d, some (false, q)) ∷ l) c r h i e = elim i [
  | inl f ↦ absurd (ground arith)
  | inr f ↦ promise_of ps n l c r h f e
]
promise_of ps n ((d, none) ∷ l) c r h i e = elim i [
  | inl f ↦ absurd (ground arith)
  | inr f ↦ promise_of ps n l c r h f e
]

module _ (i : ℕ) (nodes : List Bytes) (s : System) (inv : Inv i nodes s) where
  -- Every proposal has a value and a positive number.
  sound_of :
      (ps : List Promise) (vs : List Vote) (es : List Proposal) (q : Proposal)
      → AreSafe nodes ps vs es
      → In q es
      → (q.value ≢ []) × (0 < q.number.n)
  sound_of ps vs [] q h l = absurd l
  sound_of ps vs (e ∷ es) q h l = elim l [
    | inl f ↦ (subst (λ (y : Proposal). y.value ≢ []) (sym f) h.0, rw f h.1)
    | inr f ↦ sound_of ps vs es q h.4 f
  ]

  vote_sound : (v : Vote) → In v s.votes → (v.value ≢ []) × (0 < v.number.n)
  vote_sound v l = sound_of s.promises s.votes s.proposals _ inv.safe (inv.proposed v l)

  module _ (n : PropT) (newv : Bytes) (l : List Answer) (g : Gathered)
      (answered : Answered s.promises n l) (h : Gathers start l g) where
    -- The value that the loop ends with belongs to a proposal that some node has voted for, if any
    -- of the nodes reported a vote.
    found :
        0 < g.max.n
        → (q : Proposal) × In q s.proposals × (q.number ≡ g.max) × (q.value ≡ value_for g newv)
    found pos = elim h.source [
      | inl (e, f) ↦ absurd (ground arith)
      | inr (c, r, acc, e, f) ↦
          elim (inv.reports _
            (promise_of s.promises n l c r answered acc.answered acc.accepted)).reported [
              | inl (z, w) ↦ absurd (ground arith)
              | inr v ↦ (
                record { number = r.n_a; value = r.v_a },
                inv.proposed _ v,
                sym e,
                value_eq r.v_a f (vote_sound _ v).0,
              )
            ]
    ]
      where
        value_eq : (w : Bytes) → g.v ≡ w → w ≢ [] → w ≡ value_for g newv
        value_eq w e ne = elim (Bool-cases (g.v == [])) [
          | inl t ↦ absurd (ne (ground (arith, bytes_eq_iff g.v [])))
          | inr t ↦ rw t (sym e)
        ]

    backed :
        majority nodes g.accepts ≡ true
        → IsBacked nodes s.promises s.votes s.proposals
            (record { number = n; value = value_for g newv })
    backed large = record {
      quorum = g.accepts;
      large = large;
      promised = λ a m. elim (h.accepting a m) [
        | inl none_ ↦ absurd (unfold isamember in ground arith)
        | inr (r, acc) ↦ (
          record { node = a; number = n; reply = r },
          promise_of s.promises n l a r answered acc.answered acc.accepted,
          refl,
          refl,
        )
      ];
      carried = λ v k m lt. elim (h.accepting v.node m) [
        | inl none_ ↦ absurd (unfold isamember in ground arith)
        | inr (r, acc) ↦
            let report =
              inv.reports _
                (promise_of s.promises n l v.node r answered acc.answered acc.accepted) in
            let up : prop_ge g.max v.number ≡ true =
              prop_ge_trans g.max r.n_a v.number (h.highest v.node r acc)
                (report.above v k refl lt) in
            let (q, j, e, f) =
              found (omega (arith, prop_ge-n g.max v.number up, (vote_sound v k).1)) in
            (q, j, subst (λ x. prop_ge x v.number ≡ true) (sym e) up, f)
      ];
    }

  -- The proposer's choice of a value is safe.
  pub propose-Inv :
      (n : PropT) (newv : Bytes) (l : List Answer) (g : Gathered)
      → 0 < n.n
      → newv ≢ []
      → All (λ (p : Proposal). p.number ≢ n) s.proposals
      → Answered s.promises n l
      → prepare_loop start l ≡ granted g
      → majority nodes g.accepts ≡ true
      → Inv i nodes
          (record s { proposals = record { number = n; value = value_for g newv } ∷ s.proposals })
  propose-Inv n newv l g pos ne fresh answered e large = record {
    tracked = inv.tracked;
    reports = inv.reports;
    proposed = λ v k. inr (inv.proposed v k);
    safe = (
      nonempty,
      pos,
      fresh,
      backed n newv l g answered (prepare_loop-Gathers start g l e) large,
      inv.safe,
    );
  }
    where
      nonempty : value_for g newv ≢ []
      nonempty = elim (Bool-cases (g.v == [])) [
        | inl t ↦ rw t ne
        | inr t ↦ rw t (λ f. ground (arith, bytes_eq_iff g.v []))
      ]
