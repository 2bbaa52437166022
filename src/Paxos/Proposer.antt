-- ===== src/Paxos/Proposer.antt =====
-- `class proposer` of paxos.cc. What each call of another node brings back is an argument: nothing
-- if the node cannot be bound, or else whether the status is OK, and the reply.
pub mod Gather
pub mod Outcome
use distributed_system_lab.Base.{
  ℕ, zero, suc, ◌+◌, ◌%◌, ◌^◌, Bool, true, false, not, Option, none, some, List, [], ◌∷◌, ◌++◌, map,
  ltb, if◌then◌else◌, ◌==◌, ◌&&◌, nat_eq,
}
use distributed_system_lab.Base.Bytes.{Bytes, bytes_key}
use distributed_system_lab.Paxos.Proposal.{PropT, prop_gt}
use distributed_system_lab.Paxos.Acceptor.{PrepareArg, PrepareRes, AcceptArg, DecideArg, zero_prop}
use distributed_system_lab.Paxos.Members.{majority}

pub record Proposer : Type 0 where
  pub me : Bytes
  pub break1 : Bool
  pub break2 : Bool
  pub stable : Bool
  pub my_n : PropT

unfoldable pub proposer : Bytes → Proposer
proposer me = record { me = me; break1 = false; break2 = false; stable = true; my_n = zero_prop me }

unfoldable pub isrunning : Proposer → Bool
isrunning p = not p.stable

-- `n_h` is what the acceptor of this node has seen.
unfoldable pub setn : Proposer → PropT → Proposer
setn p n_h =
    let a = (n_h.n + 1) % 2 ^ 32 in
    let b = (p.my_n.n + 1) % 2 ^ 32 in
    record p { my_n = record { n = if ltb b a then a else b; m = p.my_n.m } }

unfoldable pub breakpoint : Proposer → ℕ → Proposer
breakpoint p b =
    if nat_eq b 3
    then record p { break1 = true }
    else if nat_eq b 4
    then record p { break2 = true }
    else p

-- The variables of the loop of prepare.
pub record Gathered : Type 0 where
  pub accepts : List Bytes
  pub max : PropT
  pub v : Bytes

pub data Prepared : Type 0 where
  granted : Gathered → Prepared
  rejected : Gathered → Bytes → Prepared

abbrev pub start : Gathered
start = record { accepts = []; max = zero_prop []; v = [] }

-- The reply `r` of `cid` accepts the request.
unfoldable pub take_reply : Gathered → Bytes → PrepareRes → Gathered
take_reply g cid r =
    if r.accept
    then if prop_gt r.n_a g.max
      then record { accepts = g.accepts ++ cid ∷ []; max = r.n_a; v = r.v_a }
      else record g { accepts = g.accepts ++ cid ∷ [] }
    else g

-- One round of the loop; `rejected` is the early return, with the value of the old instance.
unfoldable pub prepare_one : Gathered → Bytes → Option (Bool × PrepareRes) → Prepared
unfolding take_reply
prepare_one g cid none = granted g
prepare_one g cid (some (false, r)) = granted g
prepare_one g cid (some (true, r)) =
    if r.oldinstance then rejected g r.v_a else granted (take_reply g cid r)

-- The loop, over the nodes with what their calls bring back.
unfoldable pub prepare_loop : Gathered → List (Bytes × Option (Bool × PrepareRes)) → Prepared
unfolding prepare_one
prepare_loop g [] = granted g
prepare_loop g ((cid, reply) ∷ rest) = elim (prepare_one g cid reply) [
  | granted g' ↦ prepare_loop g' rest
  | rejected g' v ↦ rejected g' v
]

pub record Replies : Type 0 where
  pub to_prepare : ℕ → Bytes → PrepareArg → Option (Bool × PrepareRes)
  pub to_accept : ℕ → Bytes → AcceptArg → Option (Bool × Bool)

-- Each node with the reply to the call that the loop makes in round `i`.
unfoldable pub call_each {ℓ} : {A : Type ℓ} → (ℕ → Bytes → A) → ℕ → List Bytes → List (Bytes × A)
call_each rpc i [] = []
call_each rpc i (cid ∷ nodes) = (cid, rpc i cid) ∷ call_each rpc (suc i) nodes

unfoldable pub prepare : Replies → Proposer → ℕ → List Bytes → Prepared
unfolding prepare_loop call_each
prepare world p instance nodes =
    let a : PrepareArg = record { instance_no = instance; n = p.my_n } in
    prepare_loop start (call_each (λ i cid. world.to_prepare i cid a) 0 nodes)

unfoldable pub accept_loop : List Bytes → List (Bytes × Option (Bool × Bool)) → List Bytes
accept_loop accepts [] = accepts
accept_loop accepts ((cid, some (ok, r)) ∷ rest) =
    accept_loop (if r && ok then accepts ++ cid ∷ [] else accepts) rest
accept_loop accepts ((cid, none) ∷ rest) = accept_loop accepts rest

unfoldable pub accept : Replies → Proposer → ℕ → List Bytes → Bytes → List Bytes
unfolding accept_loop call_each
accept world p instance nodes v =
    let a : AcceptArg = record { instance_no = instance; n = p.my_n; v = v } in
    accept_loop [] (call_each (λ i cid. world.to_accept i cid a) 0 nodes)

-- The decide requests; their replies are not looked at.
unfoldable pub decide : ℕ → List Bytes → Bytes → List (Bytes × DecideArg)
decide instance accepts v = map (λ cid. (cid, record { instance_no = instance; v = v })) accepts

-- What a run does: its result (`none` if the process ends at a breakpoint), the call of
-- `acc->commit`, and the decide requests.
pub record Ran : Type 0 where
  pub proposer_after : Proposer
  pub result : Option Bool
  pub commit_call : Option (ℕ × Bytes)
  pub decides : List (Bytes × DecideArg)

unfoldable pub finish : Proposer → Bool → Ran
finish p r = record {
  proposer_after = record p { stable = true };
  result = some r;
  commit_call = none;
  decides = [];
}

unfoldable pub exit_process : Proposer → Ran
exit_process p = record { proposer_after = p; result = none; commit_call = none; decides = [] }

-- The second phase, to the nodes that have promised.
unfoldable pub run_accept : Replies → Proposer → ℕ → List Bytes → List Bytes → Bytes → Ran
unfolding finish exit_process accept decide
run_accept world p instance cur_nodes nodes v =
    if p.break1
    then exit_process p
    else (let accepts = accept world p instance nodes v in
        if majority cur_nodes accepts
        then if p.break2
          then exit_process p
          else record (finish p true) { decides = decide instance accepts v }
        else finish p false)

unfoldable pub run : Replies → Proposer → PropT → ℕ → List Bytes → Bytes → Ran
unfolding setn prepare run_accept finish
run world p0 n_h instance cur_nodes newv =
    if p0.stable
    then (let p = setn (record p0 { stable = false }) n_h in
        elim (prepare world p instance cur_nodes) [
          | rejected g v ↦ record (finish p false) { commit_call = some (instance, v) }
          | granted g ↦
              if majority cur_nodes g.accepts
              then run_accept world p instance cur_nodes g.accepts (if g.v == [] then newv else g.v)
              else finish p false
        ])
    else record { proposer_after = p0; result = some false; commit_call = none; decides = [] }
