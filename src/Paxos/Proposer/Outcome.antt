-- ===== src/Paxos/Proposer/Outcome.antt =====
-- What a run of the proposer of paxos.cc has achieved when it returns.
use distributed_system_lab.Base.{
  ℕ, suc, ◌+◌, ◌^◌, ◌<◌, ◌≡◌, refl, sym, ap, subst, ◌∙◌, ◌⊎◌, inl, inr, Bool, true, false, Option,
  none, some, List, [], ◌∷◌, ◌++◌, arith, In, Bool-cases, ◌==◌, if◌then◌else◌,
}
use distributed_system_lab.Base.Bytes.{Bytes, bytes_key, bytes_eq}
use distributed_system_lab.Paxos.Proposal.{PropT, prop_gt, prop_ge}
use distributed_system_lab.Paxos.Acceptor.{PrepareRes, zero_prop}
use distributed_system_lab.Paxos.Members.{isamember, majority}
use distributed_system_lab.Paxos.Proposer.{
  Proposer, Gathered, Prepared, granted, rejected, start, Replies, call_each, prepare, accept_loop,
  accept, decide, Ran, setn, run, run_accept, finish, exit_process,
}
use distributed_system_lab.Paxos.Proposer.Gather.{
  Answer, Accepts, Gathers, prepare_loop-Gathers, isamember-snoc,
}

-- An answer of the loop is the reply to a call that it made.
call_each-In :
    {A : Type 0} (rpc : ℕ → Bytes → A) (i : ℕ) (nodes : List Bytes) (c : Bytes) (x : A)
    → In (c, x) (call_each rpc i nodes)
    → (k : ℕ) × (rpc k c ≡ x)
unfolding call_each
call_each-In rpc i [] c x h = absurd h
call_each-In rpc i (n ∷ nodes) c x (inl e) = (i, ap (rpc i) (λ j. (e j).0) ∙ (λ j. (sym e j).1))
call_each-In rpc i (n ∷ nodes) c x (inr h) = call_each-In rpc (suc i) nodes c x h

-- Each node that the second phase counts has answered `true` with the status OK.
accept_loop-member :
    (l : List (Bytes × Option (Bool × Bool))) (accepts : List Bytes) (c : Bytes)
    → isamember c (accept_loop accepts l) ≡ true
    → (isamember c accepts ≡ true) ⊎ In (c, some (true, true)) l
unfolding accept_loop
accept_loop-member [] accepts c h = inl h
accept_loop-member ((d, none) ∷ l) accepts c h = elim (accept_loop-member l accepts c h) [
  | inl e ↦ inl e
  | inr e ↦ inr (inr e)
]
accept_loop-member ((d, some (false, r)) ∷ l) accepts c h =
    elim (accept_loop-member l accepts c (ground arith)) [ inl e ↦ inl e | inr e ↦ inr (inr e) ]
accept_loop-member ((d, some (true, false)) ∷ l) accepts c h =
    elim (accept_loop-member l accepts c h) [ inl e ↦ inl e | inr e ↦ inr (inr e) ]
accept_loop-member ((d, some (true, true)) ∷ l) accepts c h =
    elim (accept_loop-member l (accepts ++ d ∷ []) c h) [
      | inr e ↦ inr (inr e)
      | inl e ↦ elim (isamember-snoc c d accepts e) [
        | inl old ↦ inl old
        | inr new ↦ inr (inl (λ j. (sym new j, some (true, true))))
      ]
    ]

-- The calls that the loop of prepare makes, with what they bring back.
abbrev pub answers_of : Replies → ℕ → PropT → List Bytes → List Answer
answers_of world instance n nodes =
    call_each (λ k c. world.to_prepare k c (record { instance_no = instance; n = n })) 0 nodes

-- The value of the accept requests: that of the promise whose accepted proposal is the highest,
-- and the caller's if there is none, or none with a value.
abbrev pub IsValueFor : List Answer → Bytes → Bytes → Type 0
IsValueFor l newv v =
    ((v ≡ newv)
      × ((c : Bytes) (r : PrepareRes) → Accepts l c r → prop_ge (zero_prop []) r.n_a ≡ true))
    ⊎ ((c : Bytes) × (r : PrepareRes) × Accepts l c r
        × (v ≡ (if r.v_a == [] then newv else r.v_a))
        × ((d : Bytes) (q : PrepareRes) → Accepts l d q → prop_ge r.n_a q.n_a ≡ true))

-- A majority has promised the number of the run, a majority has accepted the value for it, and the
-- decide requests carry that value to those that have accepted.
pub record Achieved (world : Replies) (instance : ℕ) (cur_nodes : List Bytes) (newv : Bytes)
    (ran : Ran) : Type 0 where
  pub promised : List Bytes
  pub voted : List Bytes
  pub v : Bytes
  pub large_promised : majority cur_nodes promised ≡ true
  pub large_voted : majority cur_nodes voted ≡ true
  pub promises :
      (c : Bytes)
      → isamember c promised ≡ true
      → (r : PrepareRes) × Accepts (answers_of world instance ran.proposer_after.my_n cur_nodes) c r
  pub votes :
      (c : Bytes)
      → isamember c voted ≡ true
      → (k : ℕ) × (world.to_accept k c
            (record { instance_no = instance; n = ran.proposer_after.my_n; v = v })
          ≡ some (true, true))
  pub value : IsValueFor (answers_of world instance ran.proposer_after.my_n cur_nodes) newv v
  pub decided : ran.decides ≡ decide instance voted v
  pub no_commit : ran.commit_call ≡ none
  pub stable_again : ran.proposer_after.stable ≡ true

-- The second phase returned true.
run_accept-true :
    (world : Replies) (p : Proposer) (i : ℕ) (cur nodes : List Bytes) (v : Bytes)
    → (run_accept world p i cur nodes v).result ≡ some true
    → (majority cur (accept world p i nodes v) ≡ true)
      × (run_accept world p i cur nodes v
          ≡ record (finish p true) { decides = decide i (accept world p i nodes v) v })
unfolding run_accept finish exit_process
run_accept-true world p i cur nodes v h = (ground arith, ground arith)

-- The first phase was granted, where the whole run returned true.
run-true :
    (world : Replies) (p0 : Proposer) (n_h : PropT) (i : ℕ) (cur : List Bytes) (newv : Bytes)
    → (run world p0 n_h i cur newv).result ≡ some true
    → let p = setn (record p0 { stable = false }) n_h in
      (g : Gathered) × (prepare world p i cur ≡ granted g)
      × (majority cur g.accepts ≡ true)
      × (run world p0 n_h i cur newv
          ≡ run_accept world p i cur g.accepts (if g.v == [] then newv else g.v))
unfolding run finish
run-true world p0 n_h i cur newv h =
    go (prepare world (setn (record p0 { stable = false }) n_h) i cur) refl (Bool-cases p0.stable)
  where
    p : Proposer
    p = setn (record p0 { stable = false }) n_h

    go :
        (x : Prepared)
        → prepare world p i cur ≡ x
        → ((p0.stable ≡ true) ⊎ (p0.stable ≡ false))
        → (g : Gathered) × (prepare world p i cur ≡ granted g)
          × (majority cur g.accepts ≡ true)
          × (run world p0 n_h i cur newv
              ≡ run_accept world p i cur g.accepts (if g.v == [] then newv else g.v))
    go x e (inr off) = absurd (ground arith)
    go (rejected g v) e (inl on) = absurd (ground arith)
    go (granted g) e (inl on) = (g, e, ground arith, ground arith)

value_of_gathered :
    (l : List Answer) (g : Gathered) (newv : Bytes)
    → Gathers start l g
    → IsValueFor l newv (if g.v == [] then newv else g.v)
unfolding bytes_eq
value_of_gathered l g newv h = elim h.source [
  | inl (e, f) ↦
      inl (rw f refl, λ c r acc. subst (λ m. prop_ge m r.n_a ≡ true) e (h.highest c r acc))
  | inr (c, r, acc, e, f) ↦
      inr (c, r, acc, rw f refl, λ d q o. subst (λ m. prop_ge m q.n_a ≡ true) e (h.highest d q o))
]

achieved :
    (world : Replies) (p : Proposer) (i : ℕ) (cur : List Bytes) (newv : Bytes) (g : Gathered)
    (v : Bytes)
    → majority cur g.accepts ≡ true
    → majority cur (accept world p i g.accepts v) ≡ true
    → Gathers start (answers_of world i p.my_n cur) g
    → (if g.v == [] then newv else g.v) ≡ v
    → Achieved world i cur newv
        (record (finish p true) { decides = decide i (accept world p i g.accepts v) v })
unfolding finish accept isamember
achieved world p i cur newv g v large large' h e = record {
  promised = g.accepts;
  voted = accept world p i g.accepts v;
  v = v;
  large_promised = large;
  large_voted = large';
  promises = λ c m. elim (h.accepting c m) [ inl none_ ↦ absurd (ground arith) | inr acc ↦ acc ];
  votes = λ c m. elim (accept_loop-member (call_each _ 0 g.accepts) [] c m) [
    | inl none_ ↦ absurd (ground arith)
    | inr k ↦ call_each-In _ 0 g.accepts c (some (true, true)) k
  ];
  value = subst (IsValueFor (answers_of world i p.my_n cur) newv) e (value_of_gathered _ g newv h);
  decided = refl;
  no_commit = refl;
  stable_again = refl;
}

-- A run that returns true has promises for its number from a majority of its nodes and accept votes
-- from a majority of them; the value is that of the highest accepted proposal among the promises, or
-- the run's own if there is none, or none with a value; and its decide requests carry that value to
-- those that voted.
pub run-Achieved :
    (world : Replies) (p0 : Proposer) (n_h : PropT) (i : ℕ) (cur : List Bytes) (newv : Bytes)
    → (run world p0 n_h i cur newv).result ≡ some true
    → Achieved world i cur newv (run world p0 n_h i cur newv)
unfolding prepare
run-Achieved world p0 n_h i cur newv h =
    let (g, granted_g, large, e) = run-true world p0 n_h i cur newv h in
    let p = setn (record p0 { stable = false }) n_h in
    let v = if g.v == [] then newv else g.v in
    let (large', f) = run_accept-true world p i cur g.accepts v (ground arith) in
    subst (Achieved world i cur newv) (sym (e ∙ f))
      (achieved world p i cur newv g v large large' (prepare_loop-Gathers start g _ granted_g) refl)

-- The members of the proposer after a run, on every branch.
run_members :
    (world : Replies) (p0 : Proposer) (n_h : PropT) (i : ℕ) (cur : List Bytes) (newv : Bytes)
    → p0.stable ≡ true
    → (run world p0 n_h i cur newv).proposer_after.my_n ≡ (setn p0 n_h).my_n
unfolding run run_accept finish exit_process setn
run_members world p0 n_h i cur newv h = ground arith

-- Whatever a run comes to, the number that it has used is above every proposal that its acceptor
-- has seen and above the number of the run before, as long as neither counter is at its end.
pub run_number :
    (world : Replies) (p0 : Proposer) (n_h : PropT) (i : ℕ) (cur : List Bytes) (newv : Bytes)
    → p0.stable ≡ true
    → n_h.n + 1 < 2 ^ 32
    → p0.my_n.n + 1 < 2 ^ 32
    → let p = (run world p0 n_h i cur newv).proposer_after in
      (prop_gt p.my_n n_h ≡ true) × (p0.my_n.n < p.my_n.n) × (p.my_n.m ≡ p0.my_n.m)
unfolding setn prop_gt
run_number world p0 n_h i cur newv h k l =
    rw (run_members world p0 n_h i cur newv h) (ground arith, ground arith, refl)

-- A run that finds no other run in progress leaves the proposer free for the next one, unless the
-- process ends at a breakpoint, and if it returns false it has sent no decide request.
pub run_returns :
    (world : Replies) (p0 : Proposer) (n_h : PropT) (i : ℕ) (cur : List Bytes) (newv : Bytes)
    → p0.stable ≡ true
    → let ran = run world p0 n_h i cur newv in
      ((ran.result ≡ none) ⊎ (ran.proposer_after.stable ≡ true))
      × (ran.result ≡ some false → ran.decides ≡ [])
unfolding run run_accept finish exit_process
run_returns world p0 n_h i cur newv h = (ground arith, λ e. ground arith)
