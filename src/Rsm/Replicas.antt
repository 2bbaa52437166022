-- ===== src/Rsm/Replicas.antt =====
-- What a client's request of rsm.cc does at the primary and at the backups.
use distributed_system_lab.Base.{
  ℕ, ◌≡◌, refl, sym, ◌∙◌, ◌≢◌, ◌⊎◌, inl, inr, Bool, true, false, Option, none, some, List, [], ◌∷◌,
  arith, Bool-cases, ◌==◌,
}
use distributed_system_lab.Base.Bytes.{Bytes, bytes_key, bytes_eq_iff}
use distributed_system_lab.Paxos.Members.{isamember}
use distributed_system_lab.Rsm.StateTransfer.{Machine}
use distributed_system_lab.Rsm.{
  ViewStamp, Status, ok, Rsm, Views, Backups, vs_eq, execute, invoke_all, ask_each, client_invoke,
  invoke, breakpoint1, partition1, amiprimary,
}

module _ {S : Type 0} (machine : Machine S) where
  reply_cases : (r : Option Bool) → (r ≡ none) ⊎ (r ≡ some false) ⊎ (r ≡ some true)
  reply_cases none = inl refl
  reply_cases (some false) = inr (inl refl)
  reply_cases (some true) = inr (inr refl)

  partition1-state : (s : Rsm S) → ((partition1 s).state ≡ s.state) × ((partition1 s).me ≡ s.me)
  unfolding partition1
  partition1-state s = (ground arith, ground arith)

  -- The loop over the members changes no state but the test flags, and where it ends well every
  -- other member has answered OK.
  invoke_all-state :
      (s t : Rsm S) (reply : Backups) (p : ℕ) (vs : ViewStamp) (req : Bytes) (l : List Bytes)
      (b : Bool)
      → invoke_all machine s (ask_each machine reply p vs req l) ≡ some (t, b)
      → (t.state ≡ s.state)
        × (t.me ≡ s.me)
        × (b ≡ true → (m : Bytes) → isamember m l ≡ true → m ≢ s.me → reply m p vs req ≡ some true)
  unfolding invoke_all ask_each isamember
  invoke_all-state s t reply p vs req [] b e =
      (ground arith, ground arith, λ f m h ne. absurd (ground arith))
  invoke_all-state s t reply p vs req (x ∷ l) b e = elim (Bool-cases (x == s.me)) [
    | inl f ↦
        let ih = invoke_all-state s t reply p vs req l b (ground arith) in
        (
          ih.0,
          ih.1,
          λ g m h ne. ih.2 g m (ground (arith, bytes_eq_iff x m, bytes_eq_iff x s.me)) ne,
        )
    | inr f ↦ elim (reply_cases (reply x p vs req)) [
      | inl q ↦ absurd (ground arith)
      | inr (inl q) ↦ (
        ground (arith, partition1-state s),
        ground (arith, partition1-state s),
        λ g m h ne. absurd (ground arith),
      )
      | inr (inr q) ↦
          let ih = invoke_all-state (partition1 s) t reply p vs req l b (ground arith) in
          (
            ih.0 ∙ (partition1-state s).0,
            ih.1 ∙ (partition1-state s).1,
            λ g m h ne. elim (Bool-cases (x == m)) [
              | inl k ↦ ground (arith, bytes_eq_iff x m)
              | inr k ↦ ih.2 g m (ground arith) (λ z. ne (z ∙ (partition1-state s).1))
            ],
          )
    ]
  ]

  execute-state :
      (s s' t : Rsm S) (p : ℕ) (req r : Bytes)
      → s.state ≡ s'.state
      → execute machine s p req ≡ some (t, r)
      → execute machine s' p req ≡ some (record s' { state = t.state }, r)
  unfolding execute
  execute-state s s' t p req r e h = ground arith

  -- What a backup does when it answers OK.
  invoke-state :
      (s t : Rsm S) (p : ℕ) (vs : ViewStamp) (req : Bytes)
      → invoke machine s p vs req ≡ some (t, ok)
      → ((r : Bytes) × (execute machine s p req ≡ some (t, r)))
        × (vs_eq vs s.myvs ≡ true)
        × (t.break1 ≡ false)
  unfolding invoke breakpoint1
  invoke-state s t p vs req e = go (execute machine s p req) refl
    where
      go :
          (x : Option (Rsm S × Bytes))
          → execute machine s p req ≡ x
          → ((r : Bytes) × (execute machine s p req ≡ some (t, r)))
            × (vs_eq vs s.myvs ≡ true)
            × (t.break1 ≡ false)
      go none f = absurd (ground arith)
      go (some (u, r)) f = ((r, ground arith), ground arith, ground arith)

  -- The result of a client's request: the primary has executed it exactly when it answers OK.
  client_invoke-state :
      (views : Views) (reply : Backups) (s t : Rsm S) (p : ℕ) (q : Status) (req r : Bytes)
      → client_invoke machine views reply s p req ≡ some (t, q, r)
      → ((q ≢ ok) × (t.state ≡ s.state))
        ⊎ ((q ≡ ok)
            × ((m : Bytes)
                → isamember m (views s.vid_commit) ≡ true
                → m ≢ s.me
                → reply m p s.myvs req ≡ some true)
            × (u : Rsm S) × (u.state ≡ s.state)
            × (execute machine u p req ≡ some (t, r)))
  unfolding client_invoke
  client_invoke-state views reply s t p q req r e = elim (Bool-cases s.inviewchange) [
    | inl f ↦ inl ((λ z. ground arith), ground arith)
    | inr f ↦ elim (Bool-cases (amiprimary s)) [
      | inr g ↦ inl ((λ z. ground arith), ground arith)
      | inl g ↦
          go (invoke_all machine s (ask_each machine reply p s.myvs req (views s.vid_commit))) refl
            f g
    ]
  ]
    where
      Goal : Type 0
      Goal =
          ((q ≢ ok) × (t.state ≡ s.state))
          ⊎ ((q ≡ ok)
              × ((m : Bytes)
                  → isamember m (views s.vid_commit) ≡ true
                  → m ≢ s.me
                  → reply m p s.myvs req ≡ some true)
              × (u : Rsm S) × (u.state ≡ s.state)
              × (execute machine u p req ≡ some (t, r)))

      finish :
          (u : Rsm S) (y : Option (Rsm S × Bytes))
          → execute machine u p req ≡ y
          → s.inviewchange ≡ false
          → amiprimary s ≡ true
          → invoke_all machine s (ask_each machine reply p s.myvs req (views s.vid_commit))
            ≡ some (u, true)
          → (q ≡ ok) × (execute machine u p req ≡ some (t, r))
      finish u none k f g h = absurd (ground arith)
      finish u (some (w, r')) k f g h = (ground arith, ground arith)

      go :
          (x : Option (Rsm S × Bool))
          → invoke_all machine s (ask_each machine reply p s.myvs req (views s.vid_commit)) ≡ x
          → s.inviewchange ≡ false
          → amiprimary s ≡ true
          → Goal
      go none h f g = absurd (ground arith)
      go (some (u, false)) h f g = inl (
        (λ z. ground arith),
        ground (arith, (invoke_all-state s u reply p s.myvs req (views s.vid_commit) false h).0),
      )
      go (some (u, true)) h f g =
          let ih = invoke_all-state s u reply p s.myvs req (views s.vid_commit) true h in
          let (a, b) = finish u (execute machine u p req) refl f g h in
          inr (a, ih.2 refl, u, ih.0, b)

  -- A client's request that the primary answers with OK is executed by every other member of its
  -- view and leaves it in the primary's state: if member `b` starts in that state, and answers OK
  -- only to a request for which its handler returns OK, then the handler has run at `b` with just
  -- the procedure, the request and the primary's stamp, which is also the stamp that `b` expects,
  -- and ends in the state in which the primary ends. (What the primary reads before each call does
  -- not change during the calls.)
  pub replicas_agree :
      (views : Views) (reply : Backups) (s t : Rsm S) (p : ℕ) (req r : Bytes) (b : Rsm S)
      → client_invoke machine views reply s p req ≡ some (t, ok, r)
      → isamember b.me (views s.vid_commit) ≡ true
      → b.me ≢ s.me
      → b.state ≡ s.state
      → ((p' : ℕ) (vs : ViewStamp) (req' : Bytes)
          → reply b.me p' vs req' ≡ some true
          → (b' : Rsm S) × (invoke machine b p' vs req' ≡ some (b', ok)))
      → (b' : Rsm S) × (invoke machine b p s.myvs req ≡ some (b', ok))
        × (vs_eq s.myvs b.myvs ≡ true)
        × (b'.state ≡ t.state)
  replicas_agree views reply s t p req r b e member other same answers =
      elim (client_invoke-state views reply s t p ok req r e) [
        | inl (f, g) ↦ absurd (f refl)
        | inr (f, all_ok, u, same', ex) ↦
            let (b', run) = answers p s.myvs req (all_ok b.me member other) in
            let ((r', ex'), stamp, _) = invoke-state b b' p s.myvs req run in
            let ex'' = execute-state u b t p req r (same' ∙ sym same) ex in
            (b', run, stamp, ground (arith, ex', ex''))
      ]

  -- A request that the primary does not answer with OK has not changed its state, though backups
  -- that have answered before the one that failed have executed it.
  pub refused_unexecuted :
      (views : Views) (reply : Backups) (s t : Rsm S) (p : ℕ) (q : Status) (req r : Bytes)
      → client_invoke machine views reply s p req ≡ some (t, q, r)
      → q ≢ ok
      → t.state ≡ s.state
  refused_unexecuted views reply s t p q req r e ne =
      elim (client_invoke-state views reply s t p q req r e) [
        | inl (f, g) ↦ g
        | inr (f, _, _, _, _) ↦ absurd (ne f)
      ]

  -- A backup that has executed a request takes the same stamp again: the second request is
  -- executed too, on the state that the first one has left.
  pub stamp_taken_twice :
      (s t u : Rsm S) (p p' : ℕ) (vs : ViewStamp) (req req' r : Bytes)
      → invoke machine s p vs req ≡ some (t, ok)
      → execute machine t p' req' ≡ some (u, r)
      → invoke machine t p' vs req' ≡ some (u, ok)
  unfolding invoke breakpoint1 execute amiprimary
  stamp_taken_twice s t u p p' vs req req' r e f =
      let ((r', ex), same, go_on) = invoke-state s t p vs req e in ground (arith, ex, same, go_on)
