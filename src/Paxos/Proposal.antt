-- ===== src/Paxos/Proposal.antt =====
-- `prop_t` of paxos_protocol.h, and its order from paxos.cc.
use distributed_system_lab.Base.{
  ℕ, ◌≤◌, ◌≡◌, ◌⊎◌, Bool, true, false, not, ◌&&◌, ◌||◌, arith, ltb, nat_eq,
}
use distributed_system_lab.Base.Bytes.{
  Bytes, bytes_lt, bytes_lt_irrefl, bytes_lt_trans, bytes_lt_total, bytes_lt_asymm,
}

pub record PropT : Type 0 where
  pub n : ℕ
  pub m : Bytes

-- operator>
unfoldable pub prop_gt : PropT → PropT → Bool
prop_gt a b = ltb b.n a.n || (nat_eq a.n b.n && bytes_lt b.m a.m)

-- operator>=; `a.m >= b.m` is the negation of `a.m < b.m`.
unfoldable pub prop_ge : PropT → PropT → Bool
prop_ge a b = ltb b.n a.n || (nat_eq a.n b.n && not (bytes_lt a.m b.m))

pub prop_ge-not-gt : (a b : PropT) → prop_ge a b ≡ not (prop_gt b a)
unfolding prop_gt prop_ge
prop_ge-not-gt a b = ground arith

pub prop_gt_irrefl : (a : PropT) → prop_gt a a ≡ false
unfolding prop_gt
prop_gt_irrefl a = ground (arith, bytes_lt_irrefl a.m)

pub prop_ge_refl : (a : PropT) → prop_ge a a ≡ true
unfolding prop_ge
prop_ge_refl a = ground (arith, bytes_lt_irrefl a.m)

pub prop_ge_of_gt : (a b : PropT) → prop_gt a b ≡ true → prop_ge a b ≡ true
unfolding prop_gt prop_ge
prop_ge_of_gt a b h = ground (arith, bytes_lt_asymm b.m a.m)

pub prop_gt_trans : (a b c : PropT) → prop_gt a b ≡ true → prop_gt b c ≡ true → prop_gt a c ≡ true
unfolding prop_gt
prop_gt_trans a b c h k = ground (arith, bytes_lt_trans c.m b.m a.m)

pub prop_ge_trans : (a b c : PropT) → prop_ge a b ≡ true → prop_ge b c ≡ true → prop_ge a c ≡ true
unfolding prop_ge
prop_ge_trans a b c h k = ground (
  arith,
  bytes_lt_trans a.m c.m b.m,
  bytes_lt_trans b.m a.m c.m,
  bytes_lt_total a.m b.m,
  bytes_lt_total b.m c.m,
  bytes_lt_asymm a.m c.m,
)

pub prop_ge_antisymm : (a b : PropT) → prop_ge a b ≡ true → prop_ge b a ≡ true → a ≡ b
unfolding prop_ge
prop_ge_antisymm a b h k = ground (arith, bytes_lt_total a.m b.m)

pub prop_gt_of_gt-ge :
    (a b c : PropT) → prop_gt a b ≡ true → prop_ge b c ≡ true → prop_gt a c ≡ true
unfolding prop_gt prop_ge
prop_gt_of_gt-ge a b c h k = ground (arith, bytes_lt_trans c.m b.m a.m, bytes_lt_total b.m c.m)

-- Exactly one of `a > b`, `a == b` and `b > a` holds, and `>=` is `>` or `==`: a total order.
pub prop_order :
    (a b : PropT)
    → (prop_ge a b ≡ not (prop_gt b a))
      × ((prop_gt a b ≡ true) ⊎ (a ≡ b) ⊎ (prop_gt b a ≡ true))
      × (prop_gt a b ≡ true → prop_gt b a ≡ false)
unfolding prop_gt
prop_order a b = (
  prop_ge-not-gt a b,
  ground (arith, bytes_lt_total a.m b.m),
  λ h. ground (arith, bytes_lt_asymm b.m a.m),
)

pub prop_gt_of_ge-gt :
    (a b c : PropT) → prop_ge a b ≡ true → prop_gt b c ≡ true → prop_gt a c ≡ true
unfolding prop_gt prop_ge
prop_gt_of_ge-gt a b c h k = ground (arith, bytes_lt_trans c.m b.m a.m, bytes_lt_total a.m b.m)

pub prop_ge-n : (a b : PropT) → prop_ge a b ≡ true → b.n ≤ a.n
unfolding prop_ge
prop_ge-n a b h = ground arith
