-- ===== src/Yfs/Client/Strings.antt =====
-- Parts of strings, as yfs_client.cc takes them.
use distributed_system_lab.Base.{
  ℕ, zero, suc, ◌+◌, ◌-◌, ◌≤◌, ◌<◌, ◌≡◌, refl, ap, ◌∙◌, Bool, none, some, [], ◌∷◌, ◌++◌, ltb,
  if◌then◌else◌, length, get_elem?, arith,
}
use distributed_system_lab.Base.Bytes.{Bytes}
use distributed_system_lab.Yfs.Client.{take, drop, zeros}

pub length-take :
    (n : ℕ) (b : Bytes) → length (take n b) ≡ (if ltb n (length b) then n else length b)
unfolding take
length-take zero [] = refl
length-take zero (c ∷ b) = ground arith
length-take (suc n) [] = ground arith
length-take (suc n) (c ∷ b) = ground (arith, length-take n b)

length-drop : (n : ℕ) (b : Bytes) → length (drop n b) ≡ length b - n
unfolding drop
length-drop zero b = omega arith
length-drop (suc n) [] = omega arith
length-drop (suc n) (c ∷ b) = omega (arith, length-drop n b)

pub length-zeros : (n : ℕ) → length (zeros n) ≡ n
unfolding zeros
length-zeros zero = refl
length-zeros (suc n) = omega (arith, length-zeros n)

pub get_elem?-append :
    (a b : Bytes) (i : ℕ)
    → get_elem? (a ++ b) i
      ≡ (if ltb i (length a) then get_elem? a i else get_elem? b (i - length a))
get_elem?-append [] b i = ground arith
get_elem?-append (c ∷ a) b zero = ground arith
get_elem?-append (c ∷ a) b (suc i) =
    get_elem?-append a b i
    ∙ ap (λ (k : ℕ). if ltb i (length a) then get_elem? a i else get_elem? b k) (omega arith)
    ∙ ap (λ (t : Bool). if t then get_elem? a i else get_elem? b (suc i - suc (length a)))
        (ground arith)

pub get_elem?-take : (n i : ℕ) (b : Bytes) → i < n → get_elem? (take n b) i ≡ get_elem? b i
unfolding take
get_elem?-take zero i b h = absurd (omega arith)
get_elem?-take (suc n) i [] h = refl
get_elem?-take (suc n) zero (c ∷ b) h = refl
get_elem?-take (suc n) (suc i) (c ∷ b) h = get_elem?-take n i b (omega (arith, h))

pub get_elem?-drop : (n i : ℕ) (b : Bytes) → get_elem? (drop n b) i ≡ get_elem? b (n + i)
unfolding drop
get_elem?-drop zero i b = ap (get_elem? b) (omega arith)
get_elem?-drop (suc n) i [] = refl
get_elem?-drop (suc n) i (c ∷ b) =
    let same : suc (n + i) ≡ suc n + i = omega arith in
    get_elem?-drop n i b ∙ ap (get_elem? (c ∷ b)) same

pub get_elem?-zeros : (n i : ℕ) → i < n → get_elem? (zeros n) i ≡ some 0
unfolding zeros
get_elem?-zeros zero i h = absurd (omega arith)
get_elem?-zeros (suc n) zero h = refl
get_elem?-zeros (suc n) (suc i) h = get_elem?-zeros n i (omega (arith, h))

pub get_elem?_beyond : (b : Bytes) (i : ℕ) → length b ≤ i → get_elem? b i ≡ none
get_elem?_beyond [] i h = refl
get_elem?_beyond (c ∷ b) zero h = absurd (omega arith)
get_elem?_beyond (c ∷ b) (suc i) h = get_elem?_beyond b i (omega (arith, h))
