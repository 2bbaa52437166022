-- ===== src/Paxos/Proposer/Gather.antt =====
-- What the loop of proposer::prepare in paxos.cc gathers from the replies.
use distributed_system_lab.Base.{
  ◌≡◌, refl, sym, subst, ◌∙◌, ◌≢◌, ◌⊎◌, inl, inr, Bool, true, false, Option, none, some, List, [],
  ◌∷◌, ◌++◌, arith, In, Bool-cases,
}
use distributed_system_lab.Base.Bytes.{Bytes, bytes_key, bytes_eq_iff}
use distributed_system_lab.Paxos.Proposal.{
  prop_gt, prop_ge, prop_ge_refl, prop_ge_trans, prop_ge_of_gt, prop_ge-not-gt,
}
use distributed_system_lab.Paxos.Acceptor.{PrepareRes}
use distributed_system_lab.Paxos.Members.{isamember}
use distributed_system_lab.Paxos.Proposer.{Gathered, granted, take_reply, prepare_one, prepare_loop}

abbrev pub Answer : Type 0
Answer = Bytes × Option (Bool × PrepareRes)

pub isamember-snoc :
    (m x : Bytes) (l : List Bytes)
    → isamember m (l ++ x ∷ []) ≡ true
    → (isamember m l ≡ true) ⊎ (x ≡ m)
unfolding isamember
isamember-snoc m x [] h = ground (arith, bytes_eq_iff x m)
isamember-snoc m x (y ∷ l) h = ground (arith, isamember-snoc m x l)

-- An answer of `c` that accepts the request, with the reply `r`.
pub record Accepts (l : List Answer) (c : Bytes) (r : PrepareRes) : Type 0 where
  pub answered : In (c, some (true, r)) l
  pub accepted : r.accept ≡ true

Accepts-cons :
    (x : Answer) (l : List Answer) (c : Bytes) (r : PrepareRes)
    → Accepts l c r
    → Accepts (x ∷ l) c r
Accepts-cons x l c r h = record { answered = inr h.answered; accepted = h.accepted }

-- `g` is what the loop makes of `g0` by the answers `l`.
pub record Gathers (g0 : Gathered) (l : List Answer) (g : Gathered) : Type 0 where
  pub grows : prop_ge g.max g0.max ≡ true
  pub highest : (c : Bytes) (r : PrepareRes) → Accepts l c r → prop_ge g.max r.n_a ≡ true
  pub source :
      ((g.max ≡ g0.max) × (g.v ≡ g0.v))
      ⊎ ((c : Bytes) × (r : PrepareRes) × Accepts l c r × (g.max ≡ r.n_a) × (g.v ≡ r.v_a))
  pub accepting :
      (c : Bytes)
      → isamember c g.accepts ≡ true
      → (isamember c g0.accepts ≡ true) ⊎ ((r : PrepareRes) × Accepts l c r)

-- One more answer in front, which made `g1` of `g0`.
Gathers-cons :
    (g0 g1 g : Gathered) (x : Answer) (l : List Answer)
    → prop_ge g1.max g0.max ≡ true
    → ((r : PrepareRes) → x.1 ≡ some (true, r) → r.accept ≡ true → prop_ge g1.max r.n_a ≡ true)
    → (((g1.max ≡ g0.max) × (g1.v ≡ g0.v))
        ⊎ ((r : PrepareRes) × Accepts (x ∷ l) x.0 r × (g1.max ≡ r.n_a) × (g1.v ≡ r.v_a)))
    → ((c : Bytes)
        → isamember c g1.accepts ≡ true
        → (isamember c g0.accepts ≡ true) ⊎ ((r : PrepareRes) × Accepts (x ∷ l) c r))
    → Gathers g1 l g
    → Gathers g0 (x ∷ l) g
Gathers-cons g0 g1 g x l up high src mem h = record {
  grows = prop_ge_trans g.max g1.max g0.max h.grows up;
  highest = highest_of;
  source = source_of h.source src;
  accepting = λ c e. accepting_of c (h.accepting c e);
}
  where
    highest_in :
        (c : Bytes) (r : PrepareRes)
        → (((c, some (true, r)) ≡ x) ⊎ In (c, some (true, r)) l)
        → r.accept ≡ true
        → prop_ge g.max r.n_a ≡ true
    highest_in c r (inl e) a =
        prop_ge_trans g.max g1.max r.n_a h.grows (high r (λ i. (sym e i).1) a)
    highest_in c r (inr e) a = h.highest c r (record { answered = e; accepted = a })

    highest_of : (c : Bytes) (r : PrepareRes) → Accepts (x ∷ l) c r → prop_ge g.max r.n_a ≡ true
    highest_of c r a = highest_in c r a.answered a.accepted

    source_of :
        (((g.max ≡ g1.max) × (g.v ≡ g1.v))
          ⊎ ((c : Bytes) × (r : PrepareRes) × Accepts l c r × (g.max ≡ r.n_a) × (g.v ≡ r.v_a)))
        → (((g1.max ≡ g0.max) × (g1.v ≡ g0.v))
            ⊎ ((r : PrepareRes) × Accepts (x ∷ l) x.0 r × (g1.max ≡ r.n_a) × (g1.v ≡ r.v_a)))
        → ((g.max ≡ g0.max) × (g.v ≡ g0.v))
          ⊎ ((c : Bytes) × (r : PrepareRes) × Accepts (x ∷ l) c r × (g.max ≡ r.n_a) × (g.v ≡ r.v_a))
    source_of (inr (c, r, a, p, q)) s = inr (c, r, Accepts-cons x l c r a, p, q)
    source_of (inl (p, q)) (inl (p', q')) = inl (p ∙ p', q ∙ q')
    source_of (inl (p, q)) (inr (r, a, p', q')) = inr (x.0, r, a, p ∙ p', q ∙ q')

    accepting_of :
        (c : Bytes)
        → (isamember c g1.accepts ≡ true) ⊎ ((r : PrepareRes) × Accepts l c r)
        → (isamember c g0.accepts ≡ true) ⊎ ((r : PrepareRes) × Accepts (x ∷ l) c r)
    accepting_of c (inl e) = mem c e
    accepting_of c (inr (r, a)) = inr (r, Accepts-cons x l c r a)

-- One round that takes a reply.
take_reply-Gathers :
    (g0 g : Gathered) (c : Bytes) (r : PrepareRes) (l : List Answer)
    → Gathers (take_reply g0 c r) l g
    → Gathers g0 ((c, some (true, r)) ∷ l) g
unfolding take_reply
take_reply-Gathers g0 g c r l h =
    Gathers-cons g0 (take_reply g0 c r) g (c, some (true, r)) l
      (ground (arith, prop_ge_refl g0.max, prop_ge_of_gt r.n_a g0.max))
      (λ r' e a. ground (arith, prop_ge_refl r.n_a, prop_ge-not-gt g0.max r.n_a))
      (elim (Bool-cases r.accept) [
        | inr no_ ↦ inl (ground arith)
        | inl ok ↦ elim (Bool-cases (prop_gt r.n_a g0.max)) [
          | inl up ↦
              inr (r, record { answered = inl refl; accepted = ok }, ground arith, ground arith)
          | inr keep ↦ inl (ground arith)
        ]
      ])
      (λ d e. elim (Bool-cases r.accept) [
        | inr no_ ↦ inl (ground arith)
        | inl ok ↦ elim (isamember-snoc d c g0.accepts (ground arith)) [
          | inl old ↦ inl old
          | inr new ↦ inr (r, record { answered = inl (ground arith); accepted = ok })
        ]
      ])
      h

-- One round that takes nothing.
skip-Gathers :
    (g0 g : Gathered) (x : Answer) (l : List Answer)
    → ((r : PrepareRes) → x.1 ≢ some (true, r))
    → Gathers g0 l g
    → Gathers g0 (x ∷ l) g
skip-Gathers g0 g x l n h =
    Gathers-cons g0 g0 g x l (prop_ge_refl g0.max) (λ r e a. absurd (n r e)) (inl (refl, refl))
      (λ c e. inl e) h

pub prepare_loop-Gathers :
    (g0 g : Gathered) (l : List Answer) → prepare_loop g0 l ≡ granted g → Gathers g0 l g
unfolding prepare_loop prepare_one
prepare_loop-Gathers g0 g [] e = subst (Gathers g0 []) (ground arith) (record {
  grows = prop_ge_refl g0.max;
  highest = λ c r a. absurd a.answered;
  source = inl (refl, refl);
  accepting = λ c h. inl h;
})
prepare_loop-Gathers g0 g ((c, none) ∷ l) e =
    skip-Gathers g0 g (c, none) l (λ r f. cc) (prepare_loop-Gathers g0 g l e)
prepare_loop-Gathers g0 g ((c, some (false, r)) ∷ l) e =
    skip-Gathers g0 g (c, some (false, r)) l (λ r' f. cc) (prepare_loop-Gathers g0 g l e)
prepare_loop-Gathers g0 g ((c, some (true, r)) ∷ l) e =
    take_reply-Gathers g0 g c r l (prepare_loop-Gathers (take_reply g0 c r) g l (ground arith))
