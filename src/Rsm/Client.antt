-- ===== src/Rsm/Client.antt =====
-- `class rsm_client` of rsm_client.h and rsm_client.cc: a client that looks for the primary. Each
-- round of the loop of invoke takes what its RPCs bring back; the loop has as many rounds as there
-- are answers.
pub mod Failover
use distributed_system_lab.Base.{
  ℕ, Bool, true, false, Option, none, some, List, [], ◌∷◌, ◌==◌, if◌then◌else◌,
}
use distributed_system_lab.Base.Bytes.{Bytes, bytes_key}
use distributed_system_lab.Rsm.{Status, ok, err, notprimary, busy}

pub record RsmClient : Type 0 where
  pub primary : Bytes
  pub known_mems : List Bytes

-- The loop of primary_failure. Behind an erased element the iterator is already at the next one,
-- which is skipped; behind the last one it moves past the end, which is `none`.
unfoldable pub erase_primary : Bytes → List Bytes → Option (List Bytes)
erase_primary primary [] = some []
erase_primary primary (m ∷ []) = if m == primary then none else some (m ∷ [])
erase_primary primary (m ∷ n ∷ ms) =
    let skipped = erase_primary primary ms in
    let rest = erase_primary primary (n ∷ ms) in
    if m == primary
    then elim skipped [ none ↦ none | some l ↦ some (n ∷ l) ]
    else elim rest [ none ↦ none | some l ↦ some (m ∷ l) ]

-- `none` is the end of the list in the loop, or known_mems[0] of an empty list.
unfoldable pub primary_failure : RsmClient → Option RsmClient
unfolding erase_primary
primary_failure s = elim (erase_primary s.primary s.known_mems) [
  | none ↦ none
  | some [] ↦ none
  | some (m ∷ ms) ↦ some (record { primary = m; known_mems = m ∷ ms })
]

-- known_mems.back() and pop_back()
unfoldable pub split_back : Bytes → List Bytes → List Bytes × Bytes
split_back m [] = ([], m)
split_back m (n ∷ ms) = let (front, last) = split_back n ms in (m ∷ front, last)

-- What the call of members brings back: nothing, if it cannot be made or fails. The Boolean is the
-- result, and `none` a failed VERIFY.
unfoldable pub init_members : RsmClient → Option (List Bytes) → Option (RsmClient × Bool)
unfolding split_back
init_members s none = some (s, false)
init_members s (some []) = none
init_members s (some (m ∷ ms)) =
    let (front, last) = split_back m ms in
    some (record { primary = last; known_mems = front }, true)

-- What the call of invoke at the primary brings back: it may not be possible to bind it, or the RPC
-- may fail.
pub data Answer : Type 0 where
  unbound : Answer
  failed : Answer
  replied : Status → Bytes → Answer

pub record Round : Type 0 where
  pub answer : Answer
  pub new_view : Option (List Bytes)

-- `pending` is the loop after the rounds that are given.
pub data Invoked : Type 0 where
  answered : RsmClient → Bytes → Invoked
  pending : RsmClient → Invoked
  fault : Invoked

-- What a round leads to.
pub data Turn : Type 0 where
  returns : Bytes → Turn
  again : RsmClient → Turn
  breaks : Turn

-- prim_fail
unfoldable pub prim_fail : RsmClient → Turn
unfolding primary_failure
prim_fail s = elim (primary_failure s) [ none ↦ breaks | some t ↦ again t ]

unfoldable pub turn : RsmClient → Round → Turn
unfolding prim_fail init_members
turn s r = elim r.answer [
  | unbound ↦ prim_fail s
  | failed ↦ prim_fail s
  | replied ok rep ↦ returns rep
  | replied err rep ↦ prim_fail s
  | replied busy rep ↦ again s
  | replied notprimary rep ↦ elim (init_members s r.new_view) [
    | none ↦ breaks
    | some (t, true) ↦ again t
    | some (t, false) ↦ prim_fail t
  ]
]

unfoldable pub invoke : RsmClient → List Round → Invoked
unfolding turn
invoke s [] = pending s
invoke s (r ∷ rounds) = elim (turn s r) [
  | returns rep ↦ answered s rep
  | again t ↦ invoke t rounds
  | breaks ↦ fault
]
