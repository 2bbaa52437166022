-- ===== src/Tests/Config.antt =====
-- Views of config.cc with two or three nodes.
use distributed_system_lab.Base.{◌≡◌, refl, true, false, some, [], ◌∷◌, ◌++◌, arith}
use distributed_system_lab.Base.Tests.{nat_key}
use distributed_system_lab.Base.Bytes.{Bytes, bytes, bytes_eq, bytes_lt, bytes_key}
use distributed_system_lab.Base.Map.{lookup, index}
use distributed_system_lab.Paxos.Acceptor.{zero_prop, PrepareRes, commit, commit_wo, upcall}
use distributed_system_lab.Paxos.Log.{read_word, take_word}
use distributed_system_lab.Paxos.Log.Numbers.{is_space, skip_space}
use distributed_system_lab.Paxos.Log.RoundTrip.{IsWord}
use distributed_system_lab.Paxos.Members.{isamember, majority}
use distributed_system_lab.Paxos.Proposal.{prop_gt}
use distributed_system_lab.Paxos.Proposer.{Replies, Ran, Proposer, proposer}
use distributed_system_lab.Paxos
use distributed_system_lab.Config.{
  Config, paxos_commit, members, value, members_loop, get_view_wo, add, without, remove_wo,
  other_failure, heartbeater,
}
use distributed_system_lab.Config.Text.{members-value}
use distributed_system_lab.Config.Views.{IsAgreed, view_change-IsAgreed, late_upcall}

abbrev one : Bytes
one = bytes "5001"

abbrev two : Bytes
two = bytes "5002"

members_test : members (bytes " 5001  5002 ") ≡ one ∷ two ∷ []
unfolding members members_loop read_word take_word skip_space is_space
members_test = refl

abbrev node : Config
node = record {
  me = one;
  myvid = 1;
  mems = one ∷ [];
  acc = record {
    me = one;
    has_cfg = true;
    n_h = zero_prop one;
    n_a = zero_prop one;
    v_a = [];
    instance_h = 1;
    values = (1, one) ∷ [];
    file = [];
    upcalls = [];
  };
  pro = record { me = one; break1 = false; break2 = false; stable = true; my_n = zero_prop one };
}

-- The second view is decided.
abbrev larger : Config
larger = record node {
  myvid = 2;
  mems = one ∷ two ∷ [];
  acc = record node.acc {
    instance_h = 2;
    values = (1, one) ∷ (2, bytes "5001 5002 ") ∷ [];
    file = bytes "done 2 5001 5002 \n";
    upcalls = (2, bytes "5001 5002 ") ∷ [];
  };
}

-- The second and the third view are decided, and the view layer is told of the third one first.
late_upcall_example :
    let acc = commit (commit node.acc 2 (bytes "5001 5002 ")) 3 (bytes "5002 ") in
    let told = record node { acc = acc } in
    let in_order =
      (paxos_commit
        (paxos_commit told 2 (bytes "5001 5002 ")).config_after
        3
        (bytes "5002 ")).config_after in
    let late =
      (paxos_commit
        (paxos_commit told 3 (bytes "5002 ")).config_after
        2
        (bytes "5001 5002 ")).config_after in
    (acc.instance_h ≡ 3)
    × (acc.upcalls ≡ (2, bytes "5001 5002 ") ∷ (3, bytes "5002 ") ∷ [])
    × (in_order.myvid ≡ 3)
    × (in_order.mems ≡ members (bytes "5002 "))
    × (late.myvid ≡ 2)
    × (late.mems ≡ members (bytes "5001 5002 "))
late_upcall_example =
    late_upcall node 2 3 (bytes "5001 5002 ") (bytes "5002 ") refl (omega arith) (omega arith)

abbrev granted_reply : PrepareRes
granted_reply = record { oldinstance = false; accept = true; n_a = zero_prop one; v_a = [] }

-- Both nodes say yes.
abbrev willing : Replies
willing = record {
  to_prepare = λ k c a. some (true, granted_reply);
  to_accept = λ k c a. some (true, true);
}

one-IsWord : IsWord one
unfolding is_space
one-IsWord = record {
  nonempty = λ e. absurd (ground arith);
  solid = (refl, (refl, (refl, (refl, tt))));
}

two-IsWord : IsWord two
unfolding is_space
two-IsWord = record {
  nonempty = λ e. absurd (ground arith);
  solid = (refl, (refl, (refl, (refl, tt))));
}

add_succeeds :
    (Paxos.Proposer.run willing node.pro node.acc.n_h 2 node.mems (bytes "5001 5002 ")).result
    ≡ some true
unfolding Paxos.Proposer.run prop_gt bytes_lt bytes_eq majority isamember
add_succeeds = refl

view_change-IsAgreed_example :
    ((ran : Ran)
      → add willing node two 1 ≡ some ran
      → ran.result ≡ some true
      → (1 ≡ node.myvid) × IsAgreed willing node (node.mems ++ two ∷ []) ran)
    × ((remove_wo willing node two).result ≡ some true
        → IsAgreed willing node (without two node.mems) (remove_wo willing node two))
view_change-IsAgreed_example = view_change-IsAgreed willing node two 1 (one-IsWord, tt) two-IsWord

heartbeater_test : heartbeater larger (λ c. other_failure) true ≡ some two
unfolding heartbeater get_view_wo members members_loop read_word take_word skip_space is_space
    lookup index bytes_eq bytes_lt isamember Paxos.Acceptor.value
heartbeater_test = refl

members-value_example : members (value (one ∷ two ∷ [])) ≡ one ∷ two ∷ []
members-value_example = members-value (one ∷ two ∷ []) (one-IsWord, (two-IsWord, tt))
