-- ===== src/Base/Map.antt =====
-- `std::map` as the list of its entries in the order of their keys, which is the order in which
-- an iterator visits them.
use mathlib.Core.Path.{◌≡◌, refl}
use mathlib.Core.List.{List, [], ◌∷◌}
use mathlib.Core.Option.{Option, none, some}
use native.Mathlib.Omega.{arith}
use distributed_system_lab.Base.Tests.{Key, ◌==◌, if◌then◌else◌}

abbrev pub Map {ℓ κ} : Type ℓ → Type κ → Type (ℓ ⊔ κ)
Map K V = List (K × V)

module _ {ℓ} {V : Type ℓ} where
  -- The value of a lookup, or what a default-constructed element holds.
  abbrev pub or_else : Option V → V → V
  or_else none d = d
  or_else (some v) d = v

module _ {ℓ κ} {K : Type ℓ} ⦃key : Key K⦄ {V : Type κ} where
  -- m.find(k)
  unfoldable pub lookup : K → Map K V → Option V
  lookup k [] = none
  lookup k ((i, w) ∷ m) = if i == k then some w else lookup k m

  -- m[k] = v
  unfoldable pub insert : K → V → Map K V → Map K V
  insert k v [] = (k, v) ∷ []
  insert k v ((i, w) ∷ m) =
      if i == k
      then (k, v) ∷ m
      else (if key.blt k i then (k, v) ∷ (i, w) ∷ m else (i, w) ∷ insert k v m)

  -- the read m[k], which leaves an entry behind
  unfoldable pub index : K → V → Map K V → V × Map K V
  index k d m = elim (lookup k m) [ none ↦ (d, insert k d m) | some v ↦ (v, m) ]

  pub lookup-insert :
      (k q : K) (v : V) (m : Map K V)
      → lookup q (insert k v m) ≡ (if k == q then some v else lookup q m)
  unfolding lookup insert
  lookup-insert k q v [] = refl
  lookup-insert k q v ((first, u) ∷ rest) =
      ground
        (arith, key.beq_iff first k, key.beq_iff first q, key.beq_iff k q, lookup-insert k q v rest)

  pub lookup-insert_self : (k : K) (v : V) (m : Map K V) → lookup k (insert k v m) ≡ some v
  lookup-insert_self k v m = ground (arith, lookup-insert k k v m, key.beq_iff k k)

  pub index-value : (k : K) (d : V) (m : Map K V) → (index k d m).0 ≡ or_else (lookup k m) d
  unfolding index
  index-value k d m = ground arith

  -- The read changes no value, if a missing entry counts as the default.
  pub or_else-lookup-index :
      (k j : K) (d : V) (m : Map K V)
      → or_else (lookup j (index k d m).1) d ≡ or_else (lookup j m) d
  unfolding index
  or_else-lookup-index k j d m = ground (arith, lookup-insert k j d m, key.beq_iff k j)

  -- m.erase(k)
  unfoldable pub erase : K → Map K V → Map K V
  erase k [] = []
  erase k ((i, w) ∷ m) = let rest = erase k m in if i == k then rest else (i, w) ∷ rest

  pub lookup-erase :
      (k q : K) (m : Map K V) → lookup q (erase k m) ≡ (if k == q then none else lookup q m)
  unfolding lookup erase
  lookup-erase k q [] = ground arith
  lookup-erase k q ((i, w) ∷ m) =
      ground (arith, key.beq_iff i k, key.beq_iff i q, key.beq_iff k q, lookup-erase k q m)
