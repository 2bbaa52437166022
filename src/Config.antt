-- ===== src/Config.antt =====
-- `class config` of config.h and config.cc: the views that the replicas agree on. The mutex is
-- released during a call of the proposer, of `vc->commit_change` and of an RPC; what these bring
-- back is an argument, and the call of `vc->commit_change` and those of `mgr.delete_handle` are part
-- of the result.
pub mod Text
pub mod Views
pub mod Heartbeats
use distributed_system_lab.Base.{
  ℕ, zero, suc, ◌+◌, ◌-◌, ◌%◌, ◌^◌, Bool, true, false, not, ◌&&◌, ◌||◌, Option, none, some, List,
  [], ◌∷◌, ◌++◌, ltb, nat_eq, if◌then◌else◌, ◌==◌, length,
}
use distributed_system_lab.Base.Bytes.{Bytes, bytes, bytes_lt, bytes_key}
use distributed_system_lab.Paxos.State.{Acceptor}
use distributed_system_lab.Paxos.Log.{Loaded, loaded, fault, out_of_fuel, read_word}
use distributed_system_lab.Paxos.Members.{isamember}
use distributed_system_lab.Paxos.Proposer.{Proposer, Replies, Ran, proposer, isrunning}
use distributed_system_lab.Paxos

pub record Config : Type 0 where
  pub me : Bytes
  pub myvid : ℕ
  pub mems : List Bytes
  pub acc : Acceptor
  pub pro : Proposer

-- `while (ist >> m)`, on fuel.
unfoldable pub members_loop : ℕ → Bytes → List Bytes
members_loop zero b = []
members_loop (suc fuel) b = elim (read_word b) [
  | none ↦ []
  | some (m, rest) ↦ m ∷ members_loop fuel rest
]

-- Each round takes a character, so that the length is fuel enough.
unfoldable pub members : Bytes → List Bytes
unfolding members_loop
members value = members_loop (suc (length value)) value

unfoldable pub value : List Bytes → Bytes
value [] = []
value (m ∷ ms) = m ++ (bytes " " ++ value ms)

unfoldable pub get_view_wo : Config → ℕ → List Bytes × Config
unfolding members
get_view_wo c instance =
    let (v, acc) = Paxos.Acceptor.value c.acc instance in (members v, record c { acc = acc })

-- get_view takes the mutex around it.
unfoldable pub get_view : Config → ℕ → List Bytes × Config
unfolding get_view_wo
get_view c instance = get_view_wo c instance

unfoldable pub reconstruct : Config → Config
unfolding get_view_wo
reconstruct c =
    let vid = c.acc.instance_h in
    let (mems, c') = get_view_wo (record c { myvid = vid }) vid in
    if ltb 0 vid then record c' { mems = mems } else c

-- The constructor, on what the log file of this node holds.
unfoldable pub config : Bytes → Bytes → Bytes → Loaded Config
unfolding reconstruct
config first me file = elim (Paxos.Acceptor.acceptor true (me == first) me me file) [
  | loaded acc ↦
      loaded (reconstruct (record { me = me; myvid = 0; mems = []; acc = acc; pro = proposer me }))
  | fault ↦ fault
  | out_of_fuel ↦ out_of_fuel
]

unfoldable pub restore : Config → Bytes → Loaded Config
unfolding reconstruct
restore c text = elim (Paxos.Acceptor.restore c.acc text) [
  | loaded acc ↦ loaded (reconstruct (record c { acc = acc }))
  | fault ↦ fault
  | out_of_fuel ↦ out_of_fuel
]

-- The nodes that have left.
unfoldable pub removed : Bytes → List Bytes → List Bytes → List Bytes
removed me [] newmem = []
removed me (m ∷ mems) newmem =
    let rest = removed me mems newmem in
    if not (isamember m newmem) && not (me == m) then m ∷ rest else rest

-- The handles that are deleted, and the view that `vc->commit_change` is told of.
pub record Committed : Type 0 where
  pub config_after : Config
  pub deleted : List Bytes
  pub changed : ℕ

unfoldable pub paxos_commit : Config → ℕ → Bytes → Committed
unfolding members removed
paxos_commit c instance value =
    let newmem = members value in
    record {
      config_after = record c { mems = newmem; myvid = instance };
      deleted = removed c.me c.mems newmem;
      changed = instance;
    }

unfoldable pub ismember : Config → Bytes → ℕ → Bool × Config
unfolding get_view_wo
ismember c m vid = let (v, c') = get_view_wo c vid in (isamember m v, c')

-- A run of the proposer for the next view with `n` as its members.
unfoldable pub propose : Replies → Config → List Bytes → Ran
propose world c n =
    Paxos.Proposer.run world c.pro c.acc.n_h ((c.myvid + 1) % 2 ^ 32) c.mems (value n)

-- Nothing is proposed if the view has changed.
unfoldable pub add : Replies → Config → Bytes → ℕ → Option Ran
unfolding propose
add world c new_m vid =
    if nat_eq vid c.myvid then some (propose world c (c.mems ++ new_m ∷ [])) else none

unfoldable pub without : Bytes → List Bytes → List Bytes
without m [] = []
without m (x ∷ mems) = let rest = without m mems in if x == m then rest else x ∷ rest

unfoldable pub remove_wo : Replies → Config → Bytes → Ran
unfolding propose without
remove_wo world c m = propose world c (without m c.mems)

-- The heartbeat handler: whether it answers OK, and `r`; `none` is a failed VERIFY.
unfoldable pub heartbeat : Config → ℕ → Option (Bool × ℕ)
heartbeat c vid =
    if nat_eq vid c.myvid
    then some (true, c.myvid)
    else if isrunning c.pro
    then if nat_eq vid ((c.myvid + 1) % 2 ^ 32) || nat_eq ((vid + 1) % 2 ^ 32) c.myvid
      then some (true, c.myvid)
      else none
    else some (false, c.myvid)

pub data Heartbeat : Type 0 where
  ok viewerr failure : Heartbeat

-- What the call of `heartbeat` returns. A node that cannot be bound counts as a timeout.
pub data CallRet : Type 0 where
  ret_ok : CallRet
  ret_err : CallRet
  atmostonce_failure : CallRet
  oldsrv_failure : CallRet
  other_failure : CallRet

-- The Boolean says whether the handle is deleted.
unfoldable pub doheartbeat : CallRet → Heartbeat × Bool
doheartbeat ret_ok = (ok, false)
doheartbeat ret_err = (viewerr, false)
doheartbeat atmostonce_failure = (ok, true)
doheartbeat oldsrv_failure = (ok, true)
doheartbeat other_failure = (failure, false)

abbrev pub is_ok : Heartbeat → Bool
is_ok ok = true
is_ok viewerr = false
is_ok failure = false

-- The node with the smallest id, among `m` and the members.
unfoldable pub smallest : Bytes → List Bytes → Bytes
smallest m [] = m
smallest m (x ∷ cmems) = smallest (if bytes_lt x m then x else m) cmems

-- The first member but `me` whose heartbeat fails.
unfoldable pub first_failed : (Bytes → CallRet) → Bytes → List Bytes → Option Bytes
unfolding doheartbeat
first_failed call me [] = none
first_failed call me (x ∷ cmems) =
    let rest = first_failed call me cmems in
    if x == me then rest else if is_ok (doheartbeat (call x)).0 then rest else some x

-- One round of heartbeater: whom it removes. `call` is what the pings bring back, and `same_view`
-- whether the view is still the same after them.
unfoldable pub heartbeater : Config → (Bytes → CallRet) → Bool → Option Bytes
unfolding get_view_wo smallest first_failed
heartbeater c call same_view =
    let cmems = (get_view_wo c c.myvid).0 in
    let m = smallest c.me cmems in
    let failed = first_failed call c.me cmems in
    let suspect =
      if m == c.me then failed else if is_ok (doheartbeat (call m)).0 then none else some m in
    if isamember c.me cmems && same_view then suspect else none
