-- ===== src/Paxos/Members.antt =====
-- Sets of nodes in paxos.cc: isamember, print_members and proposer::majority.
use distributed_system_lab.Base.{
  ◌+◌, ◌/◌, ◌%◌, ◌^◌, ◌≤◌, ◌<◌, ◌≡◌, Bool, true, false, ◌&&◌, List, [], ◌∷◌, ◌++◌, arith, leb,
  if◌then◌else◌, ◌==◌, length, count_if, count_if-le, count_if-witness,
}
use distributed_system_lab.Base.Bytes.{Bytes, bytes, bytes_key}

unfoldable pub isamember : Bytes → List Bytes → Bool
isamember m [] = false
isamember m (x ∷ nodes) = if x == m then true else isamember m nodes

unfoldable pub print_members : List Bytes → Bytes
print_members [] = []
print_members (x ∷ []) = x
print_members (x ∷ y ∷ nodes) = x ++ (bytes "," ++ print_members (y ∷ nodes))

-- The counter is an `unsigned`.
unfoldable pub majority : List Bytes → List Bytes → Bool
unfolding count_if
majority l1 l2 = leb (length l1 / 2 + 1) (count_if (λ m. isamember m l2) l1 % 2 ^ 32)

module _ (p q : Bytes → Bool) where
  count_if-both :
      (l : List Bytes) → count_if p l + count_if q l ≤ length l + count_if (λ m. p m && q m) l
  unfolding count_if
  count_if-both [] = omega arith
  count_if-both (x ∷ l) = ground (arith, count_if-both l)

-- Two majorities of the same nodes have a node in common.
pub majority_overlap :
    (l a b : List Bytes)
    → length l < 2 ^ 32
    → majority l a ≡ true
    → majority l b ≡ true
    → (m : Bytes) × (isamember m a ≡ true) × (isamember m b ≡ true)
unfolding majority
majority_overlap l a b h p q =
    let (m, e) =
      count_if-witness (λ x. isamember x a && isamember x b) l
        (ground (
          arith,
          count_if-both (λ x. isamember x a) (λ x. isamember x b) l,
          count_if-le (λ x. isamember x a) l,
          count_if-le (λ x. isamember x b) l,
        )) in
    (m, ground arith, ground arith)
