-- ===== src/Rsm/Joining.antt =====
-- How a node gets into the replicated state machine of rsm.cc and in step with its primary: join,
-- joinreq, sync_with_primary and the rounds of recovery, with the view layer of config.cc. The mutex
-- is released during an RPC and during the change of the view: what the node or its view layer has
-- become by then is an argument.
use distributed_system_lab.Base.{
  ◌≡◌, ◌⊎◌, inl, inr, Bool, true, false, not, Option, none, some, nat_eq, ◌==◌, if◌then◌else◌,
  arith, Bool-cases,
}
use distributed_system_lab.Base.Bytes.{Bytes, bytes_key}
use distributed_system_lab.Paxos.Acceptor
use distributed_system_lab.Paxos.Log.{Loaded, loaded, fault, out_of_fuel}
use distributed_system_lab.Config.{Config, restore, ismember}
use distributed_system_lab.Rsm.{Rsm, Status, ok, err, notprimary, busy}

-- config::dump
abbrev pub log_of : Config → Bytes
log_of c = Acceptor.dump c.acc

module _ {S : Type 0} where
  -- The handler; `after` is the view layer when cfg->add has returned, and `log` the reply as it
  -- comes in.
  unfoldable pub joinreq : Rsm S → Config → Config → Bytes → Bytes → Status × Bytes × Config
  unfolding ismember
  joinreq s c after m log =
      let (already, c1) = ismember c m s.vid_commit in
      let (now, c2) = ismember after m after.myvid in
      if already
      then (ok, log_of c1, c1)
      else if not (s.me == s.primary)
      then (busy, log, c1)
      else if now
      then (ok, log_of c2, c2)
      else (busy, log, c2)

  -- recovery: whether the node has still to join.
  unfoldable pub has_to_join : Rsm S → Config → Bool
  unfolding ismember
  has_to_join s c = not (ismember c s.me s.vid_commit).0

  -- sync_with_primary, with what statetransfer and statetransferdone return and what the node is
  -- then; `none` goes through a null pointer.
  unfoldable pub sync_with_primary : Bool → Option Bool → Rsm S → Option Bool
  sync_with_primary transferred reported s = if not transferred then some false else elim reported [
    | none ↦ none
    | some false ↦ some false
    | some true ↦ some (nat_eq s.vid_insync s.vid_commit)
  ]

-- join, with what the call of joinreq brings back: nothing, if it cannot be made or fails.
unfoldable pub join : Config → Option (Status × Bytes) → Loaded (Config × Bool)
unfolding restore
join c none = loaded (c, false)
join c (some (ok, log)) = elim (restore c log) [
  | loaded d ↦ loaded (d, true)
  | fault ↦ fault
  | out_of_fuel ↦ out_of_fuel
]
join c (some (err, log)) = loaded (c, false)
join c (some (notprimary, log)) = loaded (c, false)
join c (some (busy, log)) = loaded (c, false)

-- When joinreq answers OK, the node that asked is a member, of the view that the state machine has
-- committed or of the last one of the view layer, and the answer is the log of that view layer; in
-- every other case it answers BUSY and leaves the reply as it was.
pub joinreq-member :
    {S : Type 0} (s : Rsm S) (c after : Config) (m log : Bytes)
    → (((joinreq s c after m log).0 ≡ ok)
        × (((ismember c m s.vid_commit).0 ≡ true) ⊎ ((ismember after m after.myvid).0 ≡ true))
        × ((joinreq s c after m log).1 ≡ log_of (joinreq s c after m log).2))
      ⊎ (((joinreq s c after m log).0 ≡ busy)
          × ((ismember c m s.vid_commit).0 ≡ false)
          × ((joinreq s c after m log).1 ≡ log))
joinreq-member s c after m log = elim (Bool-cases (ismember c m s.vid_commit).0) [
  | inl e ↦ inl (unfold joinreq in ground (arith, e), inl e, unfold joinreq in ground (arith, e))
  | inr e ↦ elim (Bool-cases (s.me == s.primary)) [
    | inr k ↦
        inr (unfold joinreq in ground (arith, e, k), e, unfold joinreq in ground (arith, e, k))
    | inl k ↦ elim (Bool-cases (ismember after m after.myvid).0) [
      | inl j ↦ inl (
        unfold joinreq in ground (arith, e, k, j),
        inr j,
        unfold joinreq in ground (arith, e, k, j),
      )
      | inr j ↦
          inr (
            unfold joinreq in ground (arith, e, k, j),
            e,
            unfold joinreq in ground (arith, e, k, j),
          )
    ]
  ]
]
