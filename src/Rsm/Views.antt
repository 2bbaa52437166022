-- ===== src/Rsm/Views.antt =====
-- View changes of rsm.cc: who is primary, and when a node serves clients.
use distributed_system_lab.Base.{ℕ, ◌+◌, ◌-◌, ◌%◌, ◌^◌, ◌≡◌, true, false, List, ◌∷◌, ◌++◌, All}
use distributed_system_lab.Base.Bytes.{Bytes, bytes_key}
use distributed_system_lab.Paxos.Members.{isamember}
use distributed_system_lab.Rsm.{Rsm, Views}

-- `m` is the first of `p` that is in `c`.
abbrev pub IsFirstCommon : Bytes → List Bytes → List Bytes → Type 0
IsFirstCommon m p c =
    (front : List Bytes) × (back : List Bytes) × (p ≡ front ++ m ∷ back)
    × (isamember m c ≡ true)
    × All (λ (x : Bytes). isamember x c ≡ false) front

-- The view before `vid`, as the code computes it.
abbrev pub view_before : Views → ℕ → List Bytes
view_before views vid = views ((vid + 2 ^ 32 - 1) % 2 ^ 32)

-- Who is primary after a view change: the old primary if it is a member of the new view, and else
-- the first node in the order of the view before that is in the new one.
abbrev pub IsSuccessor : Views → ℕ → Bytes → Bytes → Type 0
IsSuccessor views vid old new =
    (isamember new (views vid) ≡ true)
    × (isamember old (views vid) ≡ true → new ≡ old)
    × (isamember old (views vid) ≡ false → IsFirstCommon new (view_before views vid) (views vid))
