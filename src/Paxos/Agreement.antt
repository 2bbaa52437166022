-- ===== src/Paxos/Agreement.antt =====
-- One instance of Paxos over many nodes, as steps of the handlers of paxos.cc in any order: any
-- number of proposers, whose requests may be lost, repeated and reordered.
pub mod Invariant
pub mod Steps
pub mod Rpcs
pub mod Propose
pub mod Chosen
use distributed_system_lab.Base.{
  ℕ, suc, ◌+◌, ◌≤◌, ◌<◌, ◌≡◌, ◌≢◌, ◌⊎◌, Bool, true, false, Option, none, some, List, [], ◌∷◌,
  if◌then◌else◌, ◌==◌, In, All,
}
use distributed_system_lab.Base.Bytes.{Bytes, bytes_key}
use distributed_system_lab.Paxos.Proposal.{PropT, prop_ge}
use distributed_system_lab.Paxos.State.{Acceptor}
use distributed_system_lab.Paxos.Acceptor.{
  PrepareArg, PrepareRes, AcceptArg, DecideArg, preparereq, acceptreq, decidereq,
}
use distributed_system_lab.Paxos.Members.{isamember, majority}
use distributed_system_lab.Paxos.Proposer.{Gathered, granted, start, prepare_loop}

pub record Promise : Type 0 where
  pub node : Bytes
  pub number : PropT
  pub reply : PrepareRes

pub record Proposal : Type 0 where
  pub number : PropT
  pub value : Bytes

pub record Vote : Type 0 where
  pub node : Bytes
  pub number : PropT
  pub value : Bytes

-- The acceptor of each node, and the history of the instance: the prepare requests that an
-- acceptor has accepted, with its replies, the accept requests that proposers have sent, and those
-- that an acceptor has accepted; the newest first.
pub record System : Type 0 where
  pub acceptor_of : Bytes → Acceptor
  pub promises : List Promise
  pub proposals : List Proposal
  pub votes : List Vote

abbrev pub update : (Bytes → Acceptor) → Bytes → Acceptor → Bytes → Acceptor
update f a x b = if a == b then x else f b

unfoldable pub after_prepare : System → Bytes → PrepareArg → PrepareRes → System
after_prepare s a arg r =
    let (x, res) = preparereq (s.acceptor_of a) arg r in
    record s {
      acceptor_of = update s.acceptor_of a x;
      promises =
          if res.accept
          then record { node = a; number = arg.n; reply = res } ∷ s.promises
          else s.promises;
    }

unfoldable pub after_accept : System → Bytes → AcceptArg → System
after_accept s a arg =
    let (x, res) = acceptreq (s.acceptor_of a) arg in
    record s {
      acceptor_of = update s.acceptor_of a x;
      votes = if res then record { node = a; number = arg.n; value = arg.v } ∷ s.votes else s.votes;
    }

-- The answers that a proposer has for its number are replies that acceptors gave.
abbrev pub Answered : List Promise → PropT → List (Bytes × Option (Bool × PrepareRes)) → Type 0
Answered promises n [] = Unit
Answered promises n ((c, some (true, r)) ∷ l) =
    (r.accept ≡ true → In (record { node = c; number = n; reply = r }) promises)
    × Answered promises n l
Answered promises n (_ ∷ l) = Answered promises n l

-- The value of an accept request: what prepare has found, or else the value of the caller.
abbrev pub value_for : Gathered → Bytes → Bytes
value_for g newv = if g.v == [] then newv else g.v

-- `prepare` and `accept` are the RPCs at one node. An accept request is sent only to a node that
-- has promised; it may arrive at any time, also when the node has decided the instance. `propose` is
-- proposer::run between its two phases, with a number that no other run has used, and `decide` is
-- a decision that reaches one node.
pub data Step (instance : ℕ) (nodes : List Bytes) (s t : System) : Type 0 where
  prepare :
      (a : Bytes) (arg : PrepareArg) (r : PrepareRes)
      → arg.instance_no ≡ instance
      → t ≡ after_prepare s a arg r
      → Step instance nodes s t
  propose :
      (n : PropT) (newv : Bytes) (l : List (Bytes × Option (Bool × PrepareRes))) (g : Gathered)
      → 0 < n.n
      → newv ≢ []
      → All (λ (p : Proposal). p.number ≢ n) s.proposals
      → Answered s.promises n l
      → prepare_loop start l ≡ granted g
      → majority nodes g.accepts ≡ true
      → t ≡ record s { proposals = record { number = n; value = value_for g newv } ∷ s.proposals }
      → Step instance nodes s t
  accept :
      (a : Bytes) (arg : AcceptArg) (r : PrepareRes)
      → arg.instance_no ≡ instance
      → In (record { number = arg.n; value = arg.v }) s.proposals
      → In (record { node = a; number = arg.n; reply = r }) s.promises
      → t ≡ after_accept s a arg
      → Step instance nodes s t
  decide :
      (a : Bytes) (arg : DecideArg) (x : Acceptor)
      → arg.instance_no ≡ instance
      → decidereq (s.acceptor_of a) arg ≡ some x
      → t ≡ record s { acceptor_of = update s.acceptor_of a x }
      → Step instance nodes s t

pub data Reach (instance : ℕ) (nodes : List Bytes) (s : System) : System → Type 0 where
  here : Reach instance nodes s s
  next :
      {t u : System} → Reach instance nodes s t → Step instance nodes t u → Reach instance nodes s u

-- A late accept: the node has decided the instance, and accepts a proposal for it all the same.
abbrev pub IsLate : ℕ → System → Bytes → AcceptArg → Type 0
IsLate instance s a arg =
    (instance ≤ (s.acceptor_of a).instance_h) × ((acceptreq (s.acceptor_of a) arg).1 ≡ true)

-- Some step of the run is a late accept.
abbrev pub HasLate :
    {instance : ℕ} {nodes : List Bytes} {s t : System} → Reach instance nodes s t → Type 0
HasLate here = ⊥
HasLate {instance} (next {t} r (accept a arg _ _ _ _ _)) = HasLate r ⊎ IsLate instance t a arg
HasLate (next r (prepare _ _ _ _ _)) = HasLate r
HasLate (next r (propose _ _ _ _ _ _ _ _ _ _ _)) = HasLate r
HasLate (next r (decide _ _ _ _ _ _)) = HasLate r

-- Every node has decided the instance before this one, and nothing has been sent yet.
pub record Initial (instance : ℕ) (s : System) : Type 0 where
  pub open_ : (a : Bytes) → suc (s.acceptor_of a).instance_h ≡ instance
  pub unvoted : (a : Bytes) → (s.acceptor_of a).n_a.n ≡ 0
  pub no_value : (a : Bytes) → (s.acceptor_of a).v_a ≡ []
  pub no_higher : (a : Bytes) → prop_ge (s.acceptor_of a).n_h (s.acceptor_of a).n_a ≡ true
  pub no_promises : s.promises ≡ []
  pub no_proposals : s.proposals ≡ []
  pub no_votes : s.votes ≡ []

-- A majority has accepted the proposal.
pub record IsChosen (nodes : List Bytes) (s : System) (p : Proposal) : Type 0 where
  pub quorum : List Bytes
  pub large : majority nodes quorum ≡ true
  pub voted :
      (a : Bytes)
      → isamember a quorum ≡ true
      → In (record { node = a; number = p.number; value = p.value }) s.votes
