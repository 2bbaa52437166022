-- ===== src/Paxos/Acceptor.antt =====
-- `class acceptor` of paxos.cc: the constructor, the RPC handlers and the commits. The argument
-- `src` of the handlers, which the code only prints, is left out.
pub mod Calls
pub mod Promise
pub mod Commits
pub mod Recovery
pub mod Restart
pub mod Stale
use distributed_system_lab.Base.{
  ℕ, zero, suc, ◌+◌, ◌%◌, ◌^◌, Bool, true, false, Option, none, some, List, [], ◌∷◌, ◌++◌, ltb, leb,
  nat_eq, if◌then◌else◌, ◌==◌, ◌&&◌,
}
use distributed_system_lab.Base.Bytes.{Bytes, bytes_key}
use distributed_system_lab.Base.Tests.{nat_key}
use distributed_system_lab.Base.Map.{Map, insert, index}
use distributed_system_lab.Paxos.Proposal.{PropT, prop_gt, prop_ge}
use distributed_system_lab.Paxos.State.{Acceptor}
use distributed_system_lab.Paxos.Log
use distributed_system_lab.Paxos.Log.{
  Loaded, loaded, fault, out_of_fuel, logread, loginstance, logprop, logaccept,
}

pub record PrepareArg : Type 0 where
  pub instance_no : ℕ
  pub n : PropT

pub record PrepareRes : Type 0 where
  pub oldinstance : Bool
  pub accept : Bool
  pub n_a : PropT
  pub v_a : Bytes

pub record AcceptArg : Type 0 where
  pub instance_no : ℕ
  pub n : PropT
  pub v : Bytes

pub record DecideArg : Type 0 where
  pub instance_no : ℕ
  pub v : Bytes

abbrev pub zero_prop : Bytes → PropT
zero_prop me = record { n = 0; m = me }

-- The members before the log is read.
unfoldable pub blank : Bool → Bytes → Bytes → Acceptor
blank has_cfg me file = record {
  me = me;
  has_cfg = has_cfg;
  n_h = zero_prop me;
  n_a = zero_prop me;
  v_a = [];
  instance_h = 0;
  values = [];
  file = file;
  upcalls = [];
}

-- The first node of all commits the first view.
unfoldable pub first_view : Bool → Bytes → Acceptor → Acceptor
unfolding loginstance
first_view first value s =
    if nat_eq s.instance_h 0 && first
    then record (loginstance (record s { values = insert 1 value s.values }) 1 value) {
      instance_h = 1;
    }
    else s

-- The constructor, on what the log file of this node holds.
unfoldable pub acceptor : Bool → Bool → Bytes → Bytes → Bytes → Loaded Acceptor
unfolding blank first_view
acceptor has_cfg first me value file = elim (logread (blank has_cfg me file)) [
  | loaded s ↦ loaded (first_view first value s)
  | fault ↦ fault
  | out_of_fuel ↦ out_of_fuel
]

unfoldable pub preparereq : Acceptor → PrepareArg → PrepareRes → Acceptor × PrepareRes
unfolding logprop
preparereq s a r =
    if leb a.instance_no s.instance_h
    then (let (v, values) = index a.instance_no [] s.values in
        (record s { values = values }, record r { oldinstance = true; accept = false; v_a = v }))
    else if prop_gt a.n s.n_h
    then (
      logprop (record s { n_h = a.n }) a.n,
      record { oldinstance = false; accept = true; n_a = s.n_a; v_a = s.v_a },
    )
    else (s, record r { oldinstance = false; accept = false })

unfoldable pub acceptreq : Acceptor → AcceptArg → Acceptor × Bool
unfolding logaccept
acceptreq s a =
    if prop_ge a.n s.n_h
    then (logaccept (record s { n_a = a.n; v_a = a.v }) a.n a.v, true)
    else (s, false)

-- `cfg->paxos_commit` runs with the mutex released; here it is recorded.
-- The call of `cfg->paxos_commit` that commit_wo makes without the mutex.
unfoldable pub upcall : Acceptor → ℕ → Bytes → Acceptor
upcall s instance value =
    if s.has_cfg then record s { upcalls = s.upcalls ++ (instance, value) ∷ [] } else s

unfoldable pub commit_wo : Acceptor → ℕ → Bytes → Acceptor
unfolding loginstance upcall
commit_wo s instance value =
    if ltb s.instance_h instance
    then upcall
        (record (loginstance (record s { values = insert instance value s.values }) instance
          value) { instance_h = instance; n_h = zero_prop s.me; n_a = zero_prop s.me; v_a = [] })
        instance value
    else s

unfoldable pub commit : Acceptor → ℕ → Bytes → Acceptor
unfolding commit_wo
commit s instance value = commit_wo s instance value

-- `none` is a failed VERIFY: the process ends.
unfoldable pub decidereq : Acceptor → DecideArg → Option Acceptor
unfolding commit_wo
decidereq s a =
    if nat_eq a.instance_no ((s.instance_h + 1) % 2 ^ 32)
    then (if s.v_a == a.v then some (commit_wo s a.instance_no s.v_a) else none)
    else if leb a.instance_no s.instance_h
    then some s
    else none

unfoldable pub dump : Acceptor → Bytes
dump s = Log.dump s

unfoldable pub restore : Acceptor → Bytes → Loaded Acceptor
unfolding Log.restore
restore s text = logread (Log.restore s text)

-- `acceptor::value`, which leaves an entry behind as every `values[i]` does.
unfoldable pub value : Acceptor → ℕ → Bytes × Acceptor
value s instance = let (v, values) = index instance [] s.values in (v, record s { values = values })
