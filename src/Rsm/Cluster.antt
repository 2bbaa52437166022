-- ===== src/Rsm/Cluster.antt =====
-- Many nodes of rsm.cc, as the calls that one node serves and the transfers of state between two,
-- in any order; and what that says of the view stamps.
use distributed_system_lab.Base.{
  ℕ, ◌≡◌, refl, sym, subst, Bool, true, false, Option, none, some, List, [], ◌∷◌, arith, ◌==◌,
  if◌then◌else◌,
}
use distributed_system_lab.Base.Bytes.{Bytes, bytes_key}
use distributed_system_lab.Rsm.StateTransfer.{Machine}
use distributed_system_lab.Rsm.{
  ViewStamp, Status, Rsm, Views, Backups, TransferRes, vs_ne, commit_change, execute, invoke_all,
  ask_each, client_invoke, invoke, transferreq, transferdonereq, statetransfer, sync_start,
  sync_end, recovery_begin, recovery_end, test_net_repairreq, breakpointreq, partition1,
}

-- The calls that one node serves, with the views and the replies at that time.
pub data Op : Type 0 where
  change : Views → ℕ → Op
  client : Views → Backups → ℕ → Bytes → Op
  serve : ℕ → ViewStamp → Bytes → Op
  report : Bytes → ℕ → Op
  start : Views → Op
  finish : Op
  begin : Op
  end : Bool → Op
  repair : Bool → Op
  break_at : ℕ → Op

abbrev pub first_of {ℓ} : {A B : Type ℓ} → Option (A × B) → Option A
first_of none = none
first_of (some (a, b)) = some a

module _ {S : Type 0} (machine : Machine S) where
  unfoldable pub op : Rsm S → Op → Option (Rsm S)
  op s (change views vid) = commit_change views s vid
  op s (client views reply procno req) = elim (client_invoke machine views reply s procno req) [
    | none ↦ none
    | some (t, status, r) ↦ some t
  ]
  op s (serve proc vs req) = elim (invoke machine s proc vs req) [
    | none ↦ none
    | some (t, status) ↦ some t
  ]
  op s (report m vid) = some (transferdonereq machine s m vid).0
  op s (start views) = some (sync_start machine views s)
  op s finish = sync_end machine s
  op s begin = some (recovery_begin machine s)
  op s (end r) = some (recovery_end machine s r)
  op s (repair heal) = some (test_net_repairreq s heal)
  op s (break_at b) = some (breakpointreq s b).0

  abbrev pub Cluster : Type 0
  Cluster = Bytes → Rsm S

  abbrev pub put : Cluster → Bytes → Rsm S → Cluster
  put f a x b = if a == b then x else f b

  -- Node `b` asks node `a` for its state, with the empty reply `r`; the reply may be lost.
  unfoldable pub transfer : Cluster → Bytes → Bytes → TransferRes → Bool → Cluster
  transfer f a b r lost =
      put f b
        (statetransfer machine (f b) (
          if lost
          then none
          else some (transferreq machine (f a) (f b).last_myvs (f b).vid_insync r))).0

  pub data Step (f g : Cluster) : Type 0 where
    local : (a : Bytes) (o : Op) (x : Rsm S) → op (f a) o ≡ some x → g ≡ put f a x → Step f g
    transfers : (a b : Bytes) (r : TransferRes) (lost : Bool) → g ≡ transfer f a b r lost → Step f g

  pub data Reach (f : Cluster) : Cluster → Type 0 where
    here : Reach f f
    next : {g h : Cluster} → Reach f g → Step g h → Reach f h

  commit_change-last :
      (views : Views) (s t : Rsm S) (vid : ℕ)
      → commit_change views s vid ≡ some t
      → t.last_myvs ≡ s.last_myvs
  unfolding commit_change
  commit_change-last views s t vid e = ground arith

  invoke_all-last :
      (s t : Rsm S) (l : List (Bytes × Option Bool)) (b : Bool)
      → invoke_all machine s l ≡ some (t, b)
      → t.last_myvs ≡ s.last_myvs
  unfolding invoke_all
  invoke_all-last s t [] b e = ground arith
  invoke_all-last s t ((m, none) ∷ l) b e = ground (arith, invoke_all-last s t l b)
  invoke_all-last s t ((m, some false) ∷ l) b e = ground (arith, invoke_all-last s t l b)
  invoke_all-last s t ((m, some true) ∷ l) b e =
      ground (arith, invoke_all-last s t l b, invoke_all-last (partition1 s) t l b)

  execute-last :
      (s t : Rsm S) (p : ℕ) (req r : Bytes)
      → execute machine s p req ≡ some (t, r)
      → t.last_myvs ≡ s.last_myvs
  unfolding execute
  execute-last s t p req r e = ground arith

  client_invoke-last :
      (views : Views) (reply : Backups) (s t : Rsm S) (p : ℕ) (req r : Bytes) (q : Status)
      → client_invoke machine views reply s p req ≡ some (t, q, r)
      → t.last_myvs ≡ s.last_myvs
  unfolding client_invoke
  client_invoke-last views reply s t p req r q e =
      go (invoke_all machine s (ask_each machine reply p s.myvs req (views s.vid_commit))) refl
    where
      go :
          (x : Option (Rsm S × Bool))
          → invoke_all machine s (ask_each machine reply p s.myvs req (views s.vid_commit)) ≡ x
          → t.last_myvs ≡ s.last_myvs
      go none f = ground arith
      go (some (u, false)) f = ground (arith, invoke_all-last s u _ false f)
      go (some (u, true)) f = ground (arith, invoke_all-last s u _ true f, execute-last u t p req r)

  invoke-last :
      (s t : Rsm S) (p : ℕ) (vs : ViewStamp) (req : Bytes) (q : Status)
      → invoke machine s p vs req ≡ some (t, q)
      → t.last_myvs ≡ s.last_myvs
  unfolding invoke
  invoke-last s t p vs req q e = ground arith

  op-last : (s t : Rsm S) (o : Op) → op s o ≡ some t → t.last_myvs ≡ s.last_myvs
  unfolding op
  op-last s t (change views vid) e = commit_change-last views s t vid e
  op-last s t (client views reply p req) e = go (client_invoke machine views reply s p req) refl
    where
      go :
          (x : Option (Rsm S × Status × Bytes))
          → client_invoke machine views reply s p req ≡ x
          → t.last_myvs ≡ s.last_myvs
      go none f = ground arith
      go (some (u, q, r)) f = ground (arith, client_invoke-last views reply s u p req r q f)
  op-last s t (serve p vs req) e = go (invoke machine s p vs req) refl
    where
      go : (x : Option (Rsm S × Status)) → invoke machine s p vs req ≡ x → t.last_myvs ≡ s.last_myvs
      go none f = ground arith
      go (some (u, q)) f = ground (arith, invoke-last s u p vs req q f)
  op-last s t (report m vid) e = unfold transferdonereq in ground arith
  op-last s t (start views) e = unfold sync_start in ground arith
  op-last s t finish e = unfold sync_end in ground arith
  op-last s t begin e = unfold recovery_begin in ground arith
  op-last s t (end r) e = unfold recovery_end in ground arith
  op-last s t (repair heal) e = unfold test_net_repairreq in ground arith
  op-last s t (break_at b) e = unfold breakpointreq in ground arith

  abbrev pub origin : ViewStamp
  origin = record { vid = 0; seqno = 0 }

  -- A transfer leaves the stamps at the origin if both nodes have theirs there.
  transfer-last :
      (f : Cluster) (a b : Bytes) (r : TransferRes) (lost : Bool) (c : Bytes)
      → ((d : Bytes) → (f d).last_myvs ≡ origin)
      → (transfer f a b r lost c).last_myvs ≡ origin
  unfolding transfer statetransfer transferreq
  transfer-last f a b r lost c h = ground (arith, h a, h b, h c)

  -- The stamp of the last executed request never leaves its first value, at any node, whatever
  -- the nodes execute.
  Reach-last :
      {f g : Cluster}
      → ((a : Bytes) → (f a).last_myvs ≡ origin)
      → Reach f g
      → (a : Bytes) → (g a).last_myvs ≡ origin
  Reach-last h here a = h a
  Reach-last h (next {g} r (local b o x e q)) a =
      subst (λ (k : Cluster). (k a).last_myvs ≡ origin) (sym q)
        (ground (arith, Reach-last h r a, Reach-last h r b, op-last (g b) x o e))
  Reach-last h (next {g} r (transfers b c res lost q)) a =
      subst (λ (k : Cluster). (k a).last_myvs ≡ origin) (sym q)
        (transfer-last g b c res lost a (Reach-last h r))

  -- In a cluster that has started at any nodes' initial states, after any calls and transfers
  -- in any order, a transfer between any two nodes marshals no state, and leaves the state of the
  -- node that asked for it as it was.
  pub state_never_transferred :
      (f g : Cluster)
      → ((a : Bytes) → (f a).last_myvs ≡ origin)
      → Reach f g
      → (a b : Bytes) (vid : ℕ) (r : TransferRes)
      → ((transferreq machine (g a) (g b).last_myvs vid r).1.state ≡ r.state)
        × ((statetransfer machine
              (g b)
              (some (transferreq machine (g a) (g b).last_myvs vid r))).0.state
            ≡ (g b).state)
  unfolding transferreq statetransfer vs_ne
  state_never_transferred f g h r a b vid res = (
    ground (arith, Reach-last h r a, Reach-last h r b),
    ground (arith, Reach-last h r a, Reach-last h r b),
  )
