-- ===== src/Config/Views.antt =====
-- The current view of config.cc and the value that the acceptor has for it.
use mathlib.Core.List.{append_assoc}
use distributed_system_lab.Base.{
  ℕ, ◌+◌, ◌%◌, ◌^◌, ◌<◌, ◌≡◌, ap, subst, ◌∙◌, inl, inr, true, some, List, [], ◌∷◌, ◌++◌, nat_eq,
  arith, Bool-cases, All, All-append,
}
use distributed_system_lab.Base.Tests.{nat_key}
use distributed_system_lab.Base.Bytes.{Bytes, bytes_key}
use distributed_system_lab.Paxos.Acceptor.{commit, commit_wo, upcall}
use distributed_system_lab.Paxos.Log.{loginstance}
use distributed_system_lab.Paxos.Log.RoundTrip.{IsWord}
use distributed_system_lab.Paxos.Proposer.{Replies, Ran}
use distributed_system_lab.Paxos.Proposer.Outcome.{Achieved, run-Achieved}
use distributed_system_lab.Config.{
  Config, members, value, paxos_commit, propose, add, without, remove_wo,
}
use distributed_system_lab.Config.Text.{members-value, without-IsWord}

-- The acceptor lets go of its mutex before it tells the view layer of a commit, so the calls for two
-- commits can arrive in either order. In the order of the commits they leave the later view; in the
-- other order they leave the node in the earlier view, with its members, though the acceptor has
-- decided the later instance.
pub late_upcall :
    (c : Config) (i j : ℕ) (v w : Bytes)
    → c.acc.has_cfg ≡ true
    → c.acc.instance_h < i
    → i < j
    → let acc = commit (commit c.acc i v) j w in
      let told = record c { acc = acc } in
      let in_order = (paxos_commit (paxos_commit told i v).config_after j w).config_after in
      let late = (paxos_commit (paxos_commit told j w).config_after i v).config_after in
      (acc.instance_h ≡ j)
      × (acc.upcalls ≡ c.acc.upcalls ++ (i, v) ∷ (j, w) ∷ [])
      × (in_order.myvid ≡ j)
      × (in_order.mems ≡ members w)
      × (late.myvid ≡ i)
      × (late.mems ≡ members v)
unfolding commit commit_wo upcall loginstance paxos_commit
late_upcall c i j v w cfg new later = (
  ground arith,
  ground (arith, append_assoc c.acc.upcalls ((i, v) ∷ []) ((j, w) ∷ [])),
  ground arith,
  ground arith,
  ground arith,
  ground arith,
)

-- What a view change has achieved: a majority of the current members has accepted, for the next
-- view number, one value, which is the text of the proposed members or a value that one of them had
-- accepted before; and that text is read back as the proposed members.
abbrev pub IsAgreed : Replies → Config → List Bytes → Ran → Type 0
IsAgreed world c n ran =
    Achieved world ((c.myvid + 1) % 2 ^ 32) c.mems (value n) ran × (members (value n) ≡ n)

-- When a view change returns true, a majority of the current members has accepted one value for
-- the next view number. The value is the text of the members that were proposed, or one that a
-- member reported as accepted before when it promised, so that another view may be agreed on than
-- the one proposed. Adding a node proposes the current members and that node, and needs the view
-- that the caller knew to be the current one; removing a node proposes the current members without
-- it. The proposed text is read back as the proposed members, if the names of the members and of
-- the new node are not empty and have no white space.
pub view_change-IsAgreed :
    (world : Replies) (c : Config) (m : Bytes) (vid : ℕ)
    → All IsWord c.mems
    → IsWord m
    → ((ran : Ran)
        → add world c m vid ≡ some ran
        → ran.result ≡ some true
        → (vid ≡ c.myvid) × IsAgreed world c (c.mems ++ m ∷ []) ran)
      × ((remove_wo world c m).result ≡ some true
          → IsAgreed world c (without m c.mems) (remove_wo world c m))
unfolding add remove_wo propose
view_change-IsAgreed world c m vid words word = (adds, removes)
  where
    vid' : ℕ
    vid' = (c.myvid + 1) % 2 ^ 32

    larger : List Bytes
    larger = c.mems ++ m ∷ []

    adds :
        (ran : Ran)
        → add world c m vid ≡ some ran
        → ran.result ≡ some true
        → (vid ≡ c.myvid) × IsAgreed world c larger ran
    adds ran e ok = elim (Bool-cases (nat_eq vid c.myvid)) [
      | inr f ↦ absurd (ground arith)
      | inl f ↦
          let same : propose world c larger ≡ ran = ground arith in
          (
            ground arith,
            (
              subst (Achieved world vid' c.mems (value larger)) same (
                  run-Achieved world c.pro c.acc.n_h vid' c.mems (value larger)
                    (ap (λ (r : Ran). r.result) same ∙ ok)),
              members-value larger (All-append IsWord c.mems (m ∷ []) words (word, tt)),
            ),
          )
    ]

    removes :
        (remove_wo world c m).result ≡ some true
        → IsAgreed world c (without m c.mems) (remove_wo world c m)
    removes ok = (
      run-Achieved world c.pro c.acc.n_h vid' c.mems (value (without m c.mems)) ok,
      members-value (without m c.mems) (without-IsWord m c.mems words),
    )
