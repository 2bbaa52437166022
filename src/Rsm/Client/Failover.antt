-- ===== src/Rsm/Client/Failover.antt =====
-- How the client of rsm_client.cc gets from one primary to the next.
use distributed_system_lab.Base.{
  ◌≡◌, refl, ap, ◌∙◌, ◌⊎◌, inl, inr, length, true, false, Option, none, some, List, [], ◌∷◌, ◌++◌,
  ◌==◌, All, arith,
}
use distributed_system_lab.Base.Bytes.{Bytes, bytes_key, bytes_eq_refl}
use distributed_system_lab.Rsm.StateTransfer.{Machine}
use distributed_system_lab.Rsm.{ok, Rsm, Views, client_members}
use distributed_system_lab.Rsm.Client.{
  RsmClient, erase_primary, primary_failure, split_back, init_members, unbound, failed, replied,
  Round, Invoked, answered, fault, prim_fail, Turn, returns, again, breaks, turn, invoke,
}

-- No member stands in the list twice.
abbrev pub AllDifferent : List Bytes → Type 0
AllDifferent [] = Unit
AllDifferent (m ∷ ms) = All (λ (n : Bytes). (n == m) ≡ false) ms × AllDifferent ms

erase_primary-absent :
    (p : Bytes) (ms : List Bytes)
    → All (λ (n : Bytes). (n == p) ≡ false) ms
    → erase_primary p ms ≡ some ms
unfolding erase_primary
erase_primary-absent p [] h = refl
erase_primary-absent p (m ∷ []) (a, h) = rw a refl
erase_primary-absent p (m ∷ n ∷ ms) (a, h) = rw a (rest (erase_primary-absent p (n ∷ ms) h))
  where
    rest :
        erase_primary p (n ∷ ms) ≡ some (n ∷ ms)
        → elim (erase_primary p (n ∷ ms)) as (λ x. Option (List Bytes)) [
          | none ↦ none
          | some l ↦ some (m ∷ l)
        ]
          ≡ some (m ∷ n ∷ ms)
    rest e =
        ap
          (λ (o : Option (List Bytes)). elim o as (λ x. Option (List Bytes)) [
            | none ↦ none
            | some l ↦ some (m ∷ l)
          ])
          e

-- The first member fails: the next one is the primary.
primary_failure-next :
    (p n : Bytes) (ms : List Bytes)
    → AllDifferent (p ∷ n ∷ ms)
    → primary_failure (record { primary = p; known_mems = p ∷ n ∷ ms })
      ≡ some (record { primary = n; known_mems = n ∷ ms })
primary_failure-next p n ms ((a, h), d) = unfold primary_failure in ground (arith, erased)
  where
    skipped :
        erase_primary p ms ≡ some ms
        → elim (erase_primary p ms) as (λ x. Option (List Bytes)) [
          | none ↦ none
          | some l ↦ some (n ∷ l)
        ]
          ≡ some (n ∷ ms)
    skipped e =
        ap
          (λ (o : Option (List Bytes)). elim o as (λ x. Option (List Bytes)) [
            | none ↦ none
            | some l ↦ some (n ∷ l)
          ])
          e

    erased : erase_primary p (p ∷ n ∷ ms) ≡ some (n ∷ ms)
    erased = unfold erase_primary in rw (bytes_eq_refl p) (skipped (erase_primary-absent p ms h))

-- A round in which the primary fails.
abbrev pub Fails : Round → Type 0
Fails r = (r.answer ≡ unbound) ⊎ (r.answer ≡ failed)

turn-Fails : (s : RsmClient) (r : Round) → Fails r → turn s r ≡ prim_fail s
turn-Fails s r (inl e) = unfold turn in ground (arith, e)
turn-Fails s r (inr e) = unfold turn in ground (arith, e)

invoke-again :
    (s t : RsmClient) (r : Round) (rounds : List Round)
    → turn s r ≡ again t
    → invoke s (r ∷ rounds) ≡ invoke t rounds
invoke-again s t r rounds e =
    unfold invoke in
    ap
      (λ (u : Turn). elim u as (λ x. Invoked) [
        | returns rep ↦ answered s rep
        | again v ↦ invoke v rounds
        | breaks ↦ fault
      ])
      e

invoke-returns :
    (s : RsmClient) (r : Round) (rounds : List Round) (rep : Bytes)
    → r.answer ≡ replied ok rep
    → invoke s (r ∷ rounds) ≡ answered s rep
invoke-returns s r rounds rep e =
    unfold invoke in
    ap
      (λ (u : Turn). elim u as (λ x. Invoked) [
        | returns b ↦ answered s b
        | again v ↦ invoke v rounds
        | breaks ↦ fault
      ])
      replies
  where
    replies : turn s r ≡ returns rep
    replies = unfold turn in ground (arith, e)

-- A client that knows `before`, and then `m` and `rest`, and takes the first of them for the primary.
unfoldable pub knows : List Bytes → Bytes → List Bytes → RsmClient
knows [] m rest = record { primary = m; known_mems = m ∷ rest }
knows (p ∷ before) m rest = record { primary = p; known_mems = p ∷ before ++ m ∷ rest }

turn-knows :
    (p : Bytes) (before : List Bytes) (m : Bytes) (rest : List Bytes) (r : Round)
    → AllDifferent (p ∷ before ++ m ∷ rest)
    → Fails r
    → turn (knows (p ∷ before) m rest) r ≡ again (knows before m rest)
turn-knows p [] m rest r d f =
    turn-Fails (knows (p ∷ []) m rest) r f
    ∙ unfold prim_fail knows in ground (arith, primary_failure-next p m rest d)
turn-knows p (q ∷ before) m rest r d f =
    turn-Fails (knows (p ∷ q ∷ before) m rest) r f
    ∙ unfold prim_fail knows in ground (arith, primary_failure-next p q (before ++ m ∷ rest) d)

-- When the members that a client knows are different, those before `m` fail one after the other,
-- and `m` answers OK, the call returns the reply of `m`, with `m` as the primary and none of the
-- failed ones left.
pub invoke-next_primary :
    (before : List Bytes) (m : Bytes) (rest : List Bytes) (rounds more : List Round) (last : Round)
    (rep : Bytes)
    → AllDifferent (before ++ m ∷ rest)
    → length rounds ≡ length before
    → All Fails rounds
    → last.answer ≡ replied ok rep
    → invoke (knows before m rest) (rounds ++ last ∷ more)
      ≡ answered (record { primary = m; known_mems = m ∷ rest }) rep
invoke-next_primary [] m rest [] more last rep d n f e =
    unfold knows in invoke-returns (record { primary = m; known_mems = m ∷ rest }) last more rep e
invoke-next_primary [] m rest (r ∷ rounds) more last rep d n f e = absurd (omega (arith, n))
invoke-next_primary (p ∷ before) m rest [] more last rep d n f e = absurd (omega (arith, n))
invoke-next_primary (p ∷ before) m rest (r ∷ rounds) more last rep d n (g, f) e =
    invoke-again (knows (p ∷ before) m rest) (knows before m rest) r (rounds ++ last ∷ more)
      (turn-knows p before m rest r d g)
    ∙ invoke-next_primary before m rest rounds more last rep d.1 (omega (arith, n)) f e

split_back-append :
    (m : Bytes) (ms : List Bytes) (last : Bytes) → split_back m (ms ++ last ∷ []) ≡ (m ∷ ms, last)
unfolding split_back
split_back-append m [] last = refl
split_back-append m (n ∷ ms) last = rw (split_back-append n ms last) refl

-- A node that is not the primary is asked for the members: the client takes the primary that the
-- node knows, and knows the members of its view.
pub init_members-client_members :
    {S : Type 0} (machine : Machine S) (views : Views) (r : Rsm S) (s : RsmClient)
    → init_members s (some (client_members machine views r))
      ≡ some (record { primary = r.primary; known_mems = views r.vid_commit }, true)
init_members-client_members machine views r s = unfold client_members in go (views r.vid_commit)
  where
    go :
        (view : List Bytes)
        → init_members s (some (view ++ r.primary ∷ []))
          ≡ some (record { primary = r.primary; known_mems = view }, true)
    go [] = unfold init_members split_back in refl
    go (m ∷ ms) = unfold init_members in ground (arith, split_back-append m ms r.primary)
