-- ===== src/Paxos/Agreement/Invariant.antt =====
-- The invariant of one instance of Paxos.
use distributed_system_lab.Base.{ℕ, suc, ◌≤◌, ◌<◌, ◌≡◌, ◌≢◌, ◌⊎◌, true, List, [], ◌∷◌, In, All}
use distributed_system_lab.Base.Bytes.{Bytes}
use distributed_system_lab.Paxos.Proposal.{PropT, prop_gt, prop_ge}
use distributed_system_lab.Paxos.State.{Acceptor}
use distributed_system_lab.Paxos.Members.{isamember, majority}
use distributed_system_lab.Paxos.Agreement.{Promise, Proposal, Vote, System}

-- The members of the acceptor of node `a`, which has not decided the instance, against the history.
pub record IsOpen (promises : List Promise) (votes : List Vote) (a : Bytes) (n_h n_a : PropT)
    (v_a : Bytes) : Type 0 where
  pub promised : (p : Promise) → In p promises → p.node ≡ a → prop_ge n_h p.number ≡ true
  pub highest : (v : Vote) → In v votes → v.node ≡ a → prop_ge n_a v.number ≡ true
  pub latest :
      ((n_a.n ≡ 0) × (v_a ≡ []) × ((v : Vote) → In v votes → v.node ≢ a))
      ⊎ In (record { node = a; number = n_a; value = v_a }) votes
  pub within : prop_ge n_h n_a ≡ true

abbrev pub IsTracked : ℕ → List Promise → List Vote → Bytes → Acceptor → Type 0
IsTracked instance promises votes a x =
    (instance ≤ x.instance_h)
    ⊎ ((suc x.instance_h ≡ instance) × IsOpen promises votes a x.n_h x.n_a x.v_a)

-- A promise reports the highest vote of its node below its number.
pub record IsReport (votes : List Vote) (p : Promise) : Type 0 where
  pub above :
      (v : Vote)
      → In v votes
      → v.node ≡ p.node
      → prop_gt p.number v.number ≡ true
      → prop_ge p.reply.n_a v.number ≡ true
  pub reported :
      ((p.reply.n_a.n ≡ 0) × (p.reply.v_a ≡ []))
      ⊎ In (record { node = p.node; number = p.reply.n_a; value = p.reply.v_a }) votes

-- A proposal stands on a majority that had promised: where a node of it has voted below, an older
-- proposal at or above that vote has the same value.
pub record IsBacked (nodes : List Bytes) (promises : List Promise) (votes : List Vote)
    (older : List Proposal) (e : Proposal) : Type 0 where
  pub quorum : List Bytes
  pub large : majority nodes quorum ≡ true
  pub promised :
      (a : Bytes)
      → isamember a quorum ≡ true
      → (p : Promise) × In p promises × (p.node ≡ a) × (p.number ≡ e.number)
  pub carried :
      (v : Vote)
      → In v votes
      → isamember v.node quorum ≡ true
      → prop_gt e.number v.number ≡ true
      → (q : Proposal) × In q older × (prop_ge q.number v.number ≡ true) × (q.value ≡ e.value)

abbrev pub AreSafe : List Bytes → List Promise → List Vote → List Proposal → Type 0
AreSafe nodes promises votes [] = Unit
AreSafe nodes promises votes (e ∷ older) =
    (e.value ≢ [])
    × (0 < e.number.n)
    × All (λ (p : Proposal). p.number ≢ e.number) older
    × IsBacked nodes promises votes older e
    × AreSafe nodes promises votes older

pub record Inv (instance : ℕ) (nodes : List Bytes) (s : System) : Type 0 where
  pub tracked : (a : Bytes) → IsTracked instance s.promises s.votes a (s.acceptor_of a)
  pub reports : (p : Promise) → In p s.promises → IsReport s.votes p
  pub proposed :
      (v : Vote) → In v s.votes → In (record { number = v.number; value = v.value }) s.proposals
  pub safe : AreSafe nodes s.promises s.votes s.proposals
