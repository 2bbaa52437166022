-- ===== src/Paxos/Acceptor/Calls.antt =====
-- The calls that an acceptor of paxos.cc serves, one at a time under its mutex, and a sequence of
-- them in any order.
use distributed_system_lab.Base.{ℕ, Option, none, some, List, [], ◌∷◌}
use distributed_system_lab.Base.Bytes.{Bytes}
use distributed_system_lab.Paxos.State.{Acceptor}
use distributed_system_lab.Paxos.Acceptor.{
  PrepareArg, PrepareRes, AcceptArg, DecideArg, preparereq, acceptreq, decidereq, commit, value,
}

pub data Call : Type 0 where
  prepare : PrepareArg → PrepareRes → Call
  accept : AcceptArg → Call
  decide : DecideArg → Call
  commits : ℕ → Bytes → Call
  reads : ℕ → Call

unfoldable pub step : Acceptor → Call → Option Acceptor
step s (prepare a r) = some (preparereq s a r).0
step s (accept a) = some (acceptreq s a).0
step s (decide a) = decidereq s a
step s (commits instance v) = some (commit s instance v)
step s (reads instance) = some (value s instance).1

-- `none` if a VERIFY fails on the way.
unfoldable pub run : Acceptor → List Call → Option Acceptor
run s [] = some s
run s (c ∷ cs) = elim (step s c) [ none ↦ none | some s' ↦ run s' cs ]
