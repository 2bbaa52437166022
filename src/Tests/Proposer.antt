-- ===== src/Tests/Proposer.antt =====
-- Runs of the proposer of paxos.cc at three nodes, one of which cannot be reached.
use distributed_system_lab.Base.{
  ◌≡◌, refl, ◌⊎◌, true, false, none, some, List, [], ◌∷◌, ◌==◌, if◌then◌else◌,
}
use distributed_system_lab.Base.Bytes.{Bytes, bytes, bytes_eq, bytes_lt, bytes_key}
use distributed_system_lab.Paxos.Proposal.{prop_gt}
use distributed_system_lab.Paxos.Acceptor.{PrepareRes, zero_prop}
use distributed_system_lab.Paxos.Members.{isamember, majority, print_members}
use distributed_system_lab.Paxos.Proposer.{Proposer, Replies, proposer, run}
use distributed_system_lab.Paxos.Proposer.Outcome.{Achieved, run-Achieved, run_returns}

abbrev nodes : List Bytes
nodes = bytes "5001" ∷ bytes "5002" ∷ bytes "5003" ∷ []

abbrev granted_reply : PrepareRes
granted_reply = record {
  oldinstance = false;
  accept = true;
  n_a = zero_prop (bytes "5002");
  v_a = [];
}

-- Node 5003 cannot be bound; the others say yes.
abbrev two_up : Replies
two_up = record {
  to_prepare = λ k c a. if c == bytes "5003" then none else some (true, granted_reply);
  to_accept = λ k c a. if c == bytes "5003" then none else some (true, true);
}

abbrev fresh : Proposer
fresh = record {
  me = bytes "5001";
  break1 = false;
  break2 = false;
  stable = true;
  my_n = zero_prop (bytes "5001");
}

fresh_is : proposer (bytes "5001") ≡ fresh
unfolding proposer
fresh_is = refl

print_members_test : print_members nodes ≡ bytes "5001,5002,5003"
unfolding print_members
print_members_test = refl

run_succeeds :
    (run two_up fresh (zero_prop (bytes "5001")) 2 nodes (bytes "5001 5002 ")).result ≡ some true
unfolding run prop_gt bytes_lt bytes_eq majority isamember
run_succeeds = refl

run-Achieved_example :
    Achieved two_up 2 nodes
      (bytes "5001 5002 ")
      (run two_up fresh (zero_prop (bytes "5001")) 2 nodes (bytes "5001 5002 "))
run-Achieved_example =
    run-Achieved two_up fresh (zero_prop (bytes "5001")) 2 nodes (bytes "5001 5002 ") run_succeeds

run_returns_example :
    let ran = run two_up fresh (zero_prop []) 2 nodes [] in
    ((ran.result ≡ none) ⊎ (ran.proposer_after.stable ≡ true))
    × (ran.result ≡ some false → ran.decides ≡ [])
run_returns_example = run_returns two_up fresh (zero_prop []) 2 nodes [] refl
