-- ===== src/Rpc/Numbers.antt =====
-- Ascending lists of request numbers, as the client and the server keep them.
use distributed_system_lab.Base.{
  ℕ, ◌≤◌, ◌<◌, ◌≡◌, refl, Bool, false, ◌||◌, Option, none, some, List, [], ◌∷◌, ◌++◌, ltb, nat_eq,
  arith, In,
}

unfoldable pub has : ℕ → List ℕ → Bool
has e [] = false
has e (x ∷ l) = nat_eq x e || has e l

unfoldable pub Above : ℕ → List ℕ → Type 0
Above k [] = Unit
Above k (x ∷ l) = (k < x) × Above k l

unfoldable pub IsAscending : List ℕ → Type 0
unfolding Above
IsAscending [] = Unit
IsAscending (x ∷ l) = Above x l × IsAscending l

abbrev pub IsDistinct : List ℕ → Type 0
IsDistinct [] = Unit
IsDistinct (x ∷ l) = (In x l → ⊥) × IsDistinct l

abbrev pub first : List ℕ → Option ℕ
first [] = none
first (x ∷ l) = some x

unfoldable pub last : List ℕ → Option ℕ
last [] = none
last (x ∷ []) = some x
last (x ∷ y ∷ l) = last (y ∷ l)

-- The number is in the list or below all of it.
unfoldable pub seen : ℕ → List ℕ → Bool
unfolding has
seen e [] = false
seen e (x ∷ l) = ltb e x || has e (x ∷ l)

pub Above-weaken : (k j : ℕ) (l : List ℕ) → k ≤ j → Above j l → Above k l
unfolding Above
Above-weaken k j [] h a = a
Above-weaken k j (x ∷ l) h (a, b) = (omega arith, Above-weaken k j l h b)

pub has-Above : (k e : ℕ) (l : List ℕ) → Above k l → e ≤ k → has e l ≡ false
unfolding Above has
has-Above k e [] a h = refl
has-Above k e (x ∷ l) (a, b) h = ground (arith, has-Above k e l b h)

pub has-append : (e x : ℕ) (l : List ℕ) → has e (l ++ x ∷ []) ≡ (has e l || nat_eq x e)
unfolding has
has-append e x [] = ground arith
has-append e x (y ∷ l) = ground (arith, has-append e x l)

pub Above-append : (k x : ℕ) (l : List ℕ) → Above k l → k < x → Above k (l ++ x ∷ [])
unfolding Above
Above-append k x [] a h = (h, tt)
Above-append k x (y ∷ l) (a, b) h = (a, Above-append k x l b h)

-- The last number is the largest.
pub last-Above : (x m : ℕ) (l : List ℕ) → Above x l → IsAscending l → last (x ∷ l) ≡ some m → x ≤ m
unfolding Above IsAscending last
last-Above x m [] a h e = ground arith
last-Above x m (y ∷ l) (a, b) (c, d) e = ground (arith, last-Above y m l c d e)

pub IsAscending-append :
    (m x : ℕ) (l : List ℕ) → IsAscending l → last l ≡ some m → m < x → IsAscending (l ++ x ∷ [])
unfolding IsAscending last
IsAscending-append m x [] h e lt = (tt, tt)
IsAscending-append m x (y ∷ []) h e lt = ((ground arith, tt), (tt, tt))
IsAscending-append m x (y ∷ z ∷ l) (a, b) e lt = (
  Above-append y x (z ∷ l) a (ground (arith, last-Above y m (z ∷ l) a b e)),
  IsAscending-append m x (z ∷ l) b e lt,
)

-- A number above the last one is not in the list.
pub has-last : (m e : ℕ) (l : List ℕ) → IsAscending l → last l ≡ some m → m < e → has e l ≡ false
unfolding IsAscending last has
has-last m e [] h k lt = refl
has-last m e (x ∷ []) h k lt = ground arith
has-last m e (x ∷ y ∷ l) (a, b) k lt =
    ground (arith, has-last m e (y ∷ l) b k lt, last-Above x m (y ∷ l) a b k)

pub last_none : (x : ℕ) (l : List ℕ) → last (x ∷ l) ≡ none → ⊥
unfolding last
last_none x [] e = ground arith
last_none x (y ∷ l) e = last_none y l e
