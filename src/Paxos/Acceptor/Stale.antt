-- ===== src/Paxos/Acceptor/Stale.antt =====
-- Accept requests that come late: acceptreq of paxos.cc reads neither the instance of the request
-- nor the proposal that it has accepted before.
use distributed_system_lab.Base.{ℕ, ◌<◌, ◌≡◌, true, false, arith}
use distributed_system_lab.Base.Bytes.{Bytes}
use distributed_system_lab.Paxos.Proposal.{prop_gt, prop_ge}
use distributed_system_lab.Paxos.State.{Acceptor}
use distributed_system_lab.Paxos.Acceptor.{
  PrepareArg, PrepareRes, AcceptArg, preparereq, acceptreq, commit_wo,
}

-- Right after any commit, an accept request with a positive number is accepted, also one for the
-- instance just decided, or an older one, and for another value; and the acceptor then answers the
-- next prepare request above it, for an instance that is still open, with that value.
pub late_accept :
    (s : Acceptor) (i : ℕ) (v : Bytes) (a : AcceptArg) (p : PrepareArg) (r : PrepareRes)
    → s.instance_h < i
    → 0 < a.n.n
    → i < p.instance_no
    → 0 < p.n.n
    → let t = acceptreq (commit_wo s i v) a in
      (t.1 ≡ true)
      × ((preparereq t.0 p r).1
          ≡ record { oldinstance = false; accept = true; n_a = a.n; v_a = a.v })
unfolding commit_wo acceptreq preparereq prop_ge prop_gt
late_accept s i v a p r h k l m = ground arith

-- When two accept requests are not below the highest proposal seen, the second one is accepted
-- though its number is below that of the first, and the accepted number falls.
pub accept_lowers :
    (s : Acceptor) (a b : AcceptArg)
    → prop_ge a.n s.n_h ≡ true
    → prop_ge b.n s.n_h ≡ true
    → prop_gt a.n b.n ≡ true
    → let t = acceptreq (acceptreq s a).0 b in
      (t.1 ≡ true) × (prop_gt (acceptreq s a).0.n_a t.0.n_a ≡ true) × (t.0.v_a ≡ b.v)
unfolding acceptreq
accept_lowers s a b h k l = ground arith
