-- ===== src/Config/Text.antt =====
-- Views as the text that config.cc gives to the proposer: members and value.
use distributed_system_lab.Base.{
  ℕ, zero, suc, ◌≤◌, ◌<◌, ◌≡◌, refl, sym, ap, subst, ◌∙◌, ◌⊎◌, inl, inr, true, false, Option, none,
  some, List, [], ◌∷◌, ◌++◌, nat_eq, ◌==◌, length, length-append, arith, All, All-append,
  Bool-cases, Option-cases,
}
use distributed_system_lab.Base.Bytes.{Bytes, bytes, bytes_key}
use distributed_system_lab.Paxos.Log.{read_word, take_word}
use distributed_system_lab.Paxos.Log.Numbers.{is_space, skip_space}
use distributed_system_lab.Paxos.Log.RoundTrip.{IsWord, IsLine, read_word-word, read_word_blank}
use distributed_system_lab.Config.{members_loop, members, value, without}

-- Fuel above the number of members is enough for the text of a view, after a blank or none.
members_loop-value :
    (fuel : ℕ) (ms : List Bytes)
    → length ms < fuel
    → All IsWord ms
    → (members_loop fuel (value ms) ≡ ms) × (members_loop fuel (32 ∷ value ms) ≡ ms)
unfolding members_loop value read_word skip_space is_space
members_loop-value zero ms h w = absurd (omega arith)
members_loop-value (suc fuel) [] h w = (refl, refl)
members_loop-value (suc fuel) (m ∷ ms) h (w, ws) =
    let ih = members_loop-value fuel ms (omega (arith, h)) ws in
    let blank : is_space 32 ≡ true = unfold is_space in refl in
    let first = read_word-word m 32 (value ms) w blank in
    let loop = λ (r : Option (Bytes × Bytes)). elim r as (λ x. List Bytes) [
      | none ↦ []
      | some (a, rest) ↦ a ∷ members_loop fuel rest
    ] in
    (
      ap loop first ∙ ap (λ (l : List Bytes). m ∷ l) ih.1,
      ap loop (read_word_blank (m ++ (32 ∷ value ms)) ∙ first)
          ∙ ap (λ (l : List Bytes). m ∷ l) ih.1,
    )

IsWord-length : (w : Bytes) → IsWord w → 1 ≤ length w
IsWord-length [] h = absurd (h.nonempty refl)
IsWord-length (c ∷ w) h = omega arith

length-value : (ms : List Bytes) → All IsWord ms → length ms ≤ length (value ms)
unfolding value
length-value [] h = omega arith
length-value (m ∷ ms) (w, ws) =
    omega (arith, length-append m (bytes " " ++ value ms), length-value ms ws)

-- The text of a view is read back to the view, if its members are not empty and have no white space
-- in them.
pub members-value : (ms : List Bytes) → All IsWord ms → members (value ms) ≡ ms
unfolding members
members-value ms w =
    (members_loop-value (suc (length (value ms))) ms (omega (arith, length-value ms w)) w).0

IsWord-IsLine : (w : Bytes) → All (λ c. is_space c ≡ false) w → IsLine w
unfolding is_space
IsWord-IsLine [] h = tt
IsWord-IsLine (c ∷ w) (hc, h) = (ground (arith, hc), IsWord-IsLine w h)

-- The text of a view is one line, which the log can hold.
pub value-IsLine : (ms : List Bytes) → All IsWord ms → IsLine (value ms)
unfolding value
value-IsLine [] h = tt
value-IsLine (m ∷ ms) (w, ws) =
    All-append (λ c. nat_eq c 10 ≡ false) m (bytes " " ++ value ms) (IsWord-IsLine m w.solid)
      (refl, value-IsLine ms ws)

pub without-IsWord : (m : Bytes) (ms : List Bytes) → All IsWord ms → All IsWord (without m ms)
unfolding without
without-IsWord m [] h = h
without-IsWord m (x ∷ ms) (w, ws) = elim (Bool-cases (x == m)) [
  | inl e ↦ subst (All IsWord) (sym (gone e)) (without-IsWord m ms ws)
  | inr e ↦ subst (All IsWord) (sym (stays e)) (w, without-IsWord m ms ws)
]
  where
    gone : (x == m) ≡ true → without m (x ∷ ms) ≡ without m ms
    gone e = ground arith

    stays : (x == m) ≡ false → without m (x ∷ ms) ≡ x ∷ without m ms
    stays e = ground arith

take_word-length : (b : Bytes) → length (take_word b).1 ≤ length b
unfolding take_word
take_word-length [] = omega arith
take_word-length (c ∷ cs) = ground (arith, take_word-length cs)

pub skip_space-head :
    (b : Bytes)
    → (skip_space b ≡ [])
      ⊎ ((c : ℕ) × (cs : Bytes) × (skip_space b ≡ c ∷ cs)
          × (is_space c ≡ false)
          × (length cs < length b))
unfolding skip_space
skip_space-head [] = inl refl
skip_space-head (c ∷ cs) = elim (Bool-cases (is_space c)) [
  | inl e ↦ elim (skip_space-head cs) [
    | inl f ↦ inl (ground arith)
    | inr (d, ds, f, g, h) ↦ inr (d, ds, ground arith, g, ground arith)
  ]
  | inr e ↦ inr (c, cs, ground arith, e, ground arith)
]

pub read_word-length : (b w rest : Bytes) → read_word b ≡ some (w, rest) → length rest < length b
unfolding read_word take_word
read_word-length b w rest e = elim (skip_space-head b) [
  | inl f ↦ absurd (ground arith)
  | inr (c, cs, f, g, h) ↦ ground (arith, take_word-length cs)
]

-- The loop ends by itself: with any fuel above the length of the text it gives what members gives.
pub members_loop-members :
    (fuel : ℕ) (b : Bytes) → length b < fuel → members_loop fuel b ≡ members b
unfolding members
members_loop-members fuel b h = same fuel (suc (length b)) b h (omega arith)
  where
    same : (m n : ℕ) (a : Bytes) → length a < m → length a < n → members_loop m a ≡ members_loop n a
    same zero n a p q = absurd (omega arith)
    same m zero a p q = absurd (omega arith)
    same (suc m) (suc n) a p q = elim (Option-cases (read_word a)) [
      | inl e ↦ ground arith
      | inr ((w, rest), e) ↦ ground (
        arith,
        same m n rest (omega (arith, p, read_word-length a w rest e))
            (omega (arith, q, read_word-length a w rest e)),
      )
    ]
