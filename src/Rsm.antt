-- ===== src/Rsm.antt =====
-- `class rsm` of rsm.h and rsm.cc, over the state machine that it replicates. The views are those
-- that config.cc holds at the time of a call, and what an RPC brings back is an argument.
pub mod StateTransfer
pub mod Cluster
pub mod Views
pub mod Replicas
pub mod Client
pub mod Joining
use distributed_system_lab.Base.{
  ℕ, zero, suc, ◌+◌, ◌-◌, ◌%◌, ◌^◌, Bool, true, false, not, ◌&&◌, ◌||◌, Option, none, some, List,
  [], ◌∷◌, ◌++◌, ltb, leb, nat_eq, if◌then◌else◌, ◌==◌, is_empty,
}
use distributed_system_lab.Base.Bytes.{Bytes, bytes_key}
use distributed_system_lab.Paxos.Members.{isamember}
use StateTransfer.{Machine}

pub record ViewStamp : Type 0 where
  pub vid : ℕ
  pub seqno : ℕ

unfoldable pub vs_eq : ViewStamp → ViewStamp → Bool
vs_eq a b = nat_eq a.vid b.vid && nat_eq a.seqno b.seqno

unfoldable pub vs_ne : ViewStamp → ViewStamp → Bool
vs_ne a b = not (nat_eq a.vid b.vid) || not (nat_eq a.seqno b.seqno)

-- The statuses of rsm_client_protocol and rsm_protocol.
pub data Status : Type 0 where
  ok err notprimary busy : Status

-- `state` is that of the replicated machine behind `stf` and the registered procedures.
pub record Rsm (S : Type 0) : Type 0 where
  pub me : Bytes
  pub primary : Bytes
  pub insync : Bool
  pub inviewchange : Bool
  pub vid_commit : ℕ
  pub vid_insync : ℕ
  pub partitioned : Bool
  pub dopartition : Bool
  pub break1 : Bool
  pub break2 : Bool
  pub last_myvs : ViewStamp
  pub myvs : ViewStamp
  pub backups : List Bytes
  pub has_stf : Bool
  pub state : S

abbrev pub Views : Type 0
Views = ℕ → List Bytes

-- What each member answers to the invoke RPC with a procedure, a stamp and a request; `none` if the
-- member cannot be bound.
abbrev pub Backups : Type 0
Backups = Bytes → ℕ → ViewStamp → Bytes → Option Bool

pub record TransferRes : Type 0 where
  pub state : Bytes
  pub last : ViewStamp

-- The first node of the last view, in the order of its vector, that is in the new one.
unfoldable pub first_common : List Bytes → List Bytes → Option Bytes
first_common [] c = none
first_common (m ∷ p) c = let rest = first_common p c in if isamember m c then some m else rest

unfoldable pub remove_first : Bytes → List Bytes → List Bytes
remove_first m [] = []
remove_first m (x ∷ l) = let rest = remove_first m l in if x == m then l else x ∷ rest

module _ {S : Type 0} where
  -- The constructor, before the first view is committed. `vid_insync` is set before it is read.
  unfoldable pub init : Bytes → Bytes → S → Rsm S
  init first me state = record {
    me = me;
    primary = first;
    insync = false;
    inviewchange = true;
    vid_commit = 0;
    vid_insync = 0;
    partitioned = false;
    dopartition = false;
    break1 = false;
    break2 = false;
    last_myvs = record { vid = 0; seqno = 0 };
    myvs = record { vid = 0; seqno = 1 };
    backups = [];
    has_stf = false;
    state = state;
  }

  -- `none` is a failed VERIFY.
  unfoldable pub set_primary : Views → Rsm S → ℕ → Option (Rsm S)
  unfolding first_common
  set_primary views s vid =
      let c = views vid in
      let p = views ((vid + 2 ^ 32 - 1) % 2 ^ 32) in
      if is_empty c
      then none
      else if isamember s.primary c
      then some s
      else elim (first_common p c) [ none ↦ none | some m ↦ some (record s { primary = m }) ]

  -- exit(1) at a breakpoint
  unfoldable pub breakpoint1 : Rsm S → Option (Rsm S)
  breakpoint1 s = if s.break1 then none else some s

  unfoldable pub breakpoint2 : Rsm S → Option (Rsm S)
  breakpoint2 s = if s.break2 then none else some s

  unfoldable pub commit_change_wo : Views → Rsm S → ℕ → Option (Rsm S)
  unfolding set_primary breakpoint2
  commit_change_wo views s vid =
      if leb vid s.vid_commit
      then some s
      else elim (set_primary views (record s { vid_commit = vid; inviewchange = true }) vid) [
        | none ↦ none
        | some s' ↦ if isamember s'.me (views s'.vid_commit) then breakpoint2 s' else some s'
      ]

  unfoldable pub commit_change : Views → Rsm S → ℕ → Option (Rsm S)
  unfolding commit_change_wo breakpoint2
  commit_change views s vid = elim (commit_change_wo views s vid) [
    | none ↦ none
    | some s' ↦ breakpoint2 s'
  ]

  unfoldable pub amiprimary : Rsm S → Bool
  amiprimary s = (s.primary == s.me) && not s.inviewchange

  unfoldable pub partition1 : Rsm S → Rsm S
  partition1 s = if s.dopartition then record s { dopartition = false; partitioned = true } else s

  unfoldable pub test_net_repairreq : Rsm S → Bool → Rsm S
  test_net_repairreq s heal =
      if heal
      then record s { partitioned = false }
      else record s { dopartition = true; partitioned = false }

  -- Breakpoints 3 and 4 are those of the proposer.
  unfoldable pub breakpointreq : Rsm S → ℕ → Rsm S × Bool
  breakpointreq s b =
      if nat_eq b 1
      then (record s { break1 = true }, true)
      else if nat_eq b 2
      then (record s { break2 = true }, true)
      else (s, nat_eq b 3 || nat_eq b 4)

  module _ (machine : Machine S) where
    open machine use {procedure, marshal_state, unmarshal_state}

    -- `none` if no procedure has that number, or if it aborts.
    unfoldable pub execute : Rsm S → ℕ → Bytes → Option (Rsm S × Bytes)
    execute s procno req = elim (procedure procno req s.state) [
      | none ↦ none
      | some (state, rep) ↦ some (record s { state = state }, rep)
    ]

    -- One round of the loop over the members: nothing if the member cannot be bound, and else
    -- whether its reply is OK. A call of a member that cannot be bound goes through a null pointer.
    unfoldable pub invoke_one : Rsm S → Option Bool → Option (Rsm S × Bool)
    unfolding breakpoint1 partition1
    invoke_one s none = none
    invoke_one s (some is_ok) = elim (breakpoint1 s) [
      | none ↦ none
      | some s' ↦ some (partition1 s', is_ok)
    ]

    -- The loop; the Boolean says that every member has answered OK.
    unfoldable pub invoke_all : Rsm S → List (Bytes × Option Bool) → Option (Rsm S × Bool)
    unfolding invoke_one
    invoke_all s [] = some (s, true)
    invoke_all s ((t, reply) ∷ rest) =
        if t == s.me then invoke_all s rest else elim (invoke_one s reply) [
          | none ↦ none
          | some (s', true) ↦ invoke_all s' rest
          | some (s', false) ↦ some (s', false)
        ]

    -- The members of the view with what the calls bring back.
    unfoldable pub ask_each :
        Backups → ℕ → ViewStamp → Bytes → List Bytes → List (Bytes × Option Bool)
    ask_each reply procno vs req [] = []
    ask_each reply procno vs req (t ∷ ts) =
        (t, reply t procno vs req) ∷ ask_each reply procno vs req ts

    unfoldable pub client_invoke :
        Views → Backups → Rsm S → ℕ → Bytes → Option (Rsm S × Status × Bytes)
    unfolding amiprimary invoke_all ask_each execute
    client_invoke views reply s procno req =
        if s.inviewchange
        then some (s, busy, [])
        else if not (amiprimary s)
        then some (s, notprimary, [])
        else elim (invoke_all s (ask_each reply procno s.myvs req (views s.vid_commit))) [
          | none ↦ none
          | some (s', false) ↦ some (s', busy, [])
          | some (s', true) ↦ elim (execute s' procno req) [
            | none ↦ none
            | some (s'', r) ↦ some (s'', ok, r)
          ]
        ]

    unfoldable pub invoke : Rsm S → ℕ → ViewStamp → Bytes → Option (Rsm S × Status)
    unfolding amiprimary execute breakpoint1 vs_eq
    invoke s proc vs req =
        if s.inviewchange
        then some (s, err)
        else if amiprimary s
        then some (s, err)
        else if not (vs_eq vs s.myvs)
        then some (s, err)
        else elim (execute s proc req) [
          | none ↦ none
          | some (s', r) ↦ elim (breakpoint1 s') [ none ↦ none | some s'' ↦ some (s'', ok) ]
        ]

    -- The reply is filled in from `r`, which comes in empty.
    unfoldable pub transferreq : Rsm S → ViewStamp → ℕ → TransferRes → Status × TransferRes
    unfolding vs_ne
    transferreq s last vid r =
        if not s.insync || not (nat_eq vid s.vid_insync) then (busy, r) else (
          ok,
          record {
            state = if s.has_stf && vs_ne last s.last_myvs then marshal_state s.state else r.state;
            last = s.last_myvs;
          },
        )

    -- The Boolean says whether the last backup has reported, so that recovery goes on.
    unfoldable pub transferdonereq : Rsm S → Bytes → ℕ → Rsm S × Status × Bool
    unfolding remove_first
    transferdonereq s m vid =
        if not s.insync || not (nat_eq vid s.vid_insync)
        then (s, busy, false)
        else (let left = remove_first m s.backups in
            (record s { backups = left }, ok, is_empty left))

    -- What the call of transferreq at the primary brings back: nothing if it cannot be bound.
    unfoldable pub statetransfer : Rsm S → Option (Status × TransferRes) → Rsm S × Bool
    unfolding vs_ne
    statetransfer s (some (ok, r)) = (
      record s {
        state =
            if s.has_stf && vs_ne s.last_myvs r.last
            then unmarshal_state r.state s.state
            else s.state;
        last_myvs = r.last;
      },
      true,
    )
    statetransfer s _ = (s, false)

    -- `none` where the primary cannot be bound: the call goes through a null pointer.
    unfoldable pub statetransferdone : Option Status → Option Bool
    statetransferdone none = none
    statetransferdone (some ok) = some true
    statetransferdone (some _) = some false

    unfoldable pub client_members : Views → Rsm S → List Bytes
    client_members views s = views s.vid_commit ++ s.primary ∷ []

    -- The start of sync_with_backups: who has still to report.
    unfoldable pub sync_start : Views → Rsm S → Rsm S
    unfolding remove_first
    sync_start views s = record s {
      insync = true;
      backups = remove_first s.me (views s.vid_insync);
    }

    -- Its end; `none` while it still waits.
    unfoldable pub sync_end : Rsm S → Option (Rsm S)
    sync_end s =
        if is_empty s.backups || not (nat_eq s.vid_insync s.vid_commit)
        then some (record s { insync = false })
        else none

    -- recovery: the view that is synchronised for, and what a round comes to.
    unfoldable pub recovery_begin : Rsm S → Rsm S
    recovery_begin s = record s { vid_insync = s.vid_commit }

    unfoldable pub recovery_end : Rsm S → Bool → Rsm S
    recovery_end s r =
        if nat_eq s.vid_insync s.vid_commit && r
        then record s { myvs = record { vid = s.vid_commit; seqno = 1 }; inviewchange = false }
        else s
