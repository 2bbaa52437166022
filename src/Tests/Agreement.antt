-- ===== src/Tests/Agreement.antt =====
-- Two proposers of paxos.cc, one after the other, at two nodes.
use distributed_system_lab.Base.{true, false, List, [], ◌∷◌}
use distributed_system_lab.Base.Bytes.{Bytes, bytes}
use distributed_system_lab.Paxos.Proposal.{PropT}
use distributed_system_lab.Paxos.State.{Acceptor}
use distributed_system_lab.Paxos.Acceptor.{PrepareArg, PrepareRes, AcceptArg, zero_prop}
use distributed_system_lab.Paxos.Proposer.{Gathered}
use distributed_system_lab.Paxos.Agreement.{Proposal, System, accept, after_prepare, after_accept}

abbrev a : Bytes
a = bytes "5001"

abbrev b : Bytes
b = bytes "5002"

abbrev nodes : List Bytes
nodes = a ∷ b ∷ []

abbrev fresh_node : Bytes → Acceptor
fresh_node me = record {
  me = me;
  has_cfg = true;
  n_h = zero_prop me;
  n_a = zero_prop me;
  v_a = [];
  instance_h = 1;
  values = [];
  file = [];
  upcalls = [];
}

abbrev number_one : PropT
number_one = record { n = 1; m = a }

abbrev number_two : PropT
number_two = record { n = 2; m = b }

abbrev blank_reply : PrepareRes
blank_reply = record { oldinstance = false; accept = false; n_a = zero_prop []; v_a = [] }

-- A reply that accepts, and reports `n_a` with the value `v_a`.
abbrev reply : PropT → Bytes → PrepareRes
reply n_a v_a = record { oldinstance = false; accept = true; n_a = n_a; v_a = v_a }

abbrev view_ab : Bytes
view_ab = bytes "5001 5002 "

abbrev view_b : Bytes
view_b = bytes "5002 "

abbrev prepare_with : PropT → PrepareArg
prepare_with n = record { instance_no = 2; n = n }

abbrev accept_with : PropT → AcceptArg
accept_with n = record { instance_no = 2; n = n; v = view_ab }

abbrev s0 : System
s0 = record { acceptor_of = fresh_node; promises = []; proposals = []; votes = [] }

-- Both nodes promise the first number, its proposer proposes, and both nodes vote.
abbrev s1 : System
s1 =
    after_prepare (after_prepare s0 a (prepare_with number_one) blank_reply) b
      (prepare_with number_one) blank_reply

abbrev first_proposal : Proposal
first_proposal = record { number = number_one; value = view_ab }

abbrev s2 : System
s2 = record s1 { proposals = first_proposal ∷ [] }

abbrev s3 : System
s3 = after_accept (after_accept s2 a (accept_with number_one)) b (accept_with number_one)

-- The second proposer wants another view, and finds the first one.
abbrev s4 : System
s4 =
    after_prepare (after_prepare s3 a (prepare_with number_two) blank_reply) b
      (prepare_with number_two) blank_reply

abbrev second_proposal : Proposal
second_proposal = record { number = number_two; value = view_ab }

abbrev s5 : System
s5 = record s4 { proposals = second_proposal ∷ first_proposal ∷ [] }

abbrev s6 : System
s6 = after_accept (after_accept s5 a (accept_with number_two)) b (accept_with number_two)

abbrev gathered : PropT → Bytes → Gathered
gathered max v = record { accepts = nodes; max = max; v = v }
