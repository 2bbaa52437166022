-- ===== src/Base/Ordered.antt =====
-- A map with numbers for keys whose entries are in the order of their keys, as in a `std::map`.
use Prim.Native.Nat.{ℕ, ◌≤◌, ◌<◌}
use mathlib.Core.Path.{◌≡◌, refl, sym, subst}
use mathlib.Core.Logic.{inl, inr}
use mathlib.Core.Bool.{true, false}
use mathlib.Core.List.{[], ◌∷◌}
use mathlib.Core.Option.{Option, none, some}
use native.Mathlib.Omega.{arith}
use distributed_system_lab.Base.Tests.{nat_key, nat_eq, ltb, Bool-cases}
use distributed_system_lab.Base.Map.{Map, lookup, insert, index}

module _ {V : Type 0} where
  -- Every key is above a number.
  unfoldable pub Above : ℕ → Map ℕ V → Type 0
  Above k [] = Unit
  Above k ((i, v) ∷ m) = (k < i) × Above k m

  unfoldable pub IsOrdered : Map ℕ V → Type 0
  unfolding Above
  IsOrdered [] = Unit
  IsOrdered ((i, v) ∷ m) = Above i m × IsOrdered m

  Above-below : (k i : ℕ) (m : Map ℕ V) → k ≤ i → Above i m → Above k m
  unfolding Above
  Above-below k i [] h a = a
  Above-below k i ((j, v) ∷ m) h (a, b) = (omega arith, Above-below k i m h b)

  insert-Above : (k i : ℕ) (v : V) (m : Map ℕ V) → k < i → Above k m → Above k (insert i v m)
  unfolding Above insert
  insert-Above k i v [] h a = (h, a)
  insert-Above k i v ((j, w) ∷ m) h (a, b) = elim (Bool-cases (nat_eq j i)) [
    | inl e ↦ ground (arith, insert-Above k i v m h b)
    | inr e ↦ elim (Bool-cases (ltb i j)) [
      | inl f ↦ ground (arith, insert-Above k i v m h b)
      | inr f ↦ ground (arith, insert-Above k i v m h b)
    ]
  ]

  pub insert-IsOrdered : (i : ℕ) (v : V) (m : Map ℕ V) → IsOrdered m → IsOrdered (insert i v m)
  unfolding IsOrdered insert
  insert-IsOrdered i v [] h = (tt, tt)
  insert-IsOrdered i v ((j, w) ∷ m) (a, b) = elim (Bool-cases (nat_eq j i)) [
    | inl e ↦ subst IsOrdered (sym (same e)) (Above-below i j m (ground arith) a, b)
    | inr e ↦ elim (Bool-cases (ltb i j)) [
      | inl f ↦
          subst IsOrdered (sym (first e f))
            ((ground arith, Above-below i j m (ground arith) a), (a, b))
      | inr f ↦
          subst IsOrdered (sym (later e f))
            (insert-Above j i v m (ground arith) a, insert-IsOrdered i v m b)
    ]
  ]
    where
      same : nat_eq j i ≡ true → insert i v ((j, w) ∷ m) ≡ (i, v) ∷ m
      same e = ground arith

      first : nat_eq j i ≡ false → ltb i j ≡ true → insert i v ((j, w) ∷ m) ≡ (i, v) ∷ (j, w) ∷ m
      first e f = ground arith

      later : nat_eq j i ≡ false → ltb i j ≡ false → insert i v ((j, w) ∷ m) ≡ (j, w) ∷ insert i v m
      later e f = ground arith

  pub lookup-Above : (k : ℕ) (m : Map ℕ V) → Above k m → lookup k m ≡ none
  unfolding Above lookup
  lookup-Above k [] a = refl
  lookup-Above k ((i, v) ∷ m) (a, b) = ground (arith, lookup-Above k m b)

  pub index-IsOrdered : (i : ℕ) (d : V) (m : Map ℕ V) → IsOrdered m → IsOrdered (index i d m).1
  unfolding index
  index-IsOrdered i d m h = go (lookup i m)
    where
      go :
          (x : Option V)
          → IsOrdered
              (elim x as (λ y. V × Map ℕ V) [ none ↦ (d, insert i d m) | some v ↦ (v, m) ]).1
      go none = insert-IsOrdered i d m h
      go (some v) = h
