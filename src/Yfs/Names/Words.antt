-- ===== src/Yfs/Names/Words.antt =====
-- The words of a text, as `ist >> file` of yfs_client.cc reads them.
use distributed_system_lab.Base.{
  ℕ, zero, suc, ◌<◌, ◌≡◌, ◌≢◌, refl, sym, ap, subst, ◌∙◌, inl, inr, false, Option, none, some, List,
  [], ◌∷◌, ◌++◌, length, All, arith, Bool-cases, Option-cases, eq_of_some-eq,
}
use distributed_system_lab.Base.Bytes.{Bytes}
use distributed_system_lab.Paxos.Log.{read_word, take_word}
use distributed_system_lab.Paxos.Log.Numbers.{is_space, skip_space}
use distributed_system_lab.Paxos.Log.RoundTrip.{IsWord, read_word_blank}
use distributed_system_lab.Config.{members, members_loop}
use distributed_system_lab.Config.Text.{members_loop-members, skip_space-head, read_word-length}

abbrev words : ℕ → Option (Bytes × Bytes) → List Bytes
words fuel none = []
words fuel (some (w, rest)) = w ∷ members_loop fuel rest

members_loop-words : (fuel : ℕ) (b : Bytes) → members_loop (suc fuel) b ≡ words fuel (read_word b)
unfolding members_loop
members_loop-words fuel b = go (read_word b) refl
  where
    go :
        (r : Option (Bytes × Bytes))
        → read_word b ≡ r
        → members_loop (suc fuel) b ≡ words fuel (read_word b)
    go none e = ground arith
    go (some (w, rest)) e = ground arith

-- The words, read one by one.
members-none : (b : Bytes) → read_word b ≡ none → members b ≡ []
unfolding members
members-none b e = members_loop-words (length b) b ∙ ap (words (length b)) e

members-some : (b w rest : Bytes) → read_word b ≡ some (w, rest) → members b ≡ w ∷ members rest
members-some b w rest e =
    unfold members in
    members_loop-words (length b) b
    ∙ ap (words (length b)) e
    ∙ ap (λ (l : List Bytes). w ∷ l)
        (members_loop-members (length b) rest (read_word-length b w rest e))

-- read_word on what is left when the white space is gone.
abbrev word_of : Bytes → Option (Bytes × Bytes)
word_of [] = none
word_of (c ∷ cs) = some (take_word (c ∷ cs))

read_word-skip : (b : Bytes) → read_word b ≡ word_of (skip_space b)
unfolding read_word
read_word-skip b = go (skip_space b)
  where
    go :
        (s : Bytes)
        → elim s as (λ x. Option (Bytes × Bytes)) [ [] ↦ none | c ∷ cs ↦ some (take_word (c ∷ cs)) ]
          ≡ word_of s
    go [] = refl
    go (c ∷ cs) = refl

skip_space-append :
    (b t : Bytes) (c : ℕ) (cs : Bytes) → skip_space b ≡ c ∷ cs → skip_space (b ++ t) ≡ c ∷ cs ++ t
unfolding skip_space
skip_space-append [] t c cs e = absurd (ground arith)
skip_space-append (d ∷ b) t c cs e = elim (Bool-cases (is_space d)) [
  | inl k ↦ rw k (skip_space-append b t c cs (ground arith))
  | inr k ↦ (let same : d ∷ b ≡ c ∷ cs = ground arith in rw k (ap (λ (l : Bytes). l ++ t) same))
]

skip_space_none : (b t : Bytes) → skip_space b ≡ [] → skip_space (b ++ t) ≡ skip_space t
unfolding skip_space
skip_space_none [] t e = refl
skip_space_none (d ∷ b) t e = elim (Bool-cases (is_space d)) [
  | inl k ↦ rw k (skip_space_none b t (ground arith))
  | inr k ↦ absurd (ground arith)
]

take_word-append :
    (b w : Bytes) → take_word (b ++ 32 ∷ w) ≡ ((take_word b).0, (take_word b).1 ++ 32 ∷ w)
unfolding take_word is_space
take_word-append [] w = refl
take_word-append (c ∷ b) w = elim (Bool-cases (is_space c)) [
  | inl k ↦ rw (k, take_word) refl
  | inr k ↦ rw (k, take_word) (rw (take_word-append b w) refl)
]

take_word_alone : (w : Bytes) → All (λ c. is_space c ≡ false) w → take_word w ≡ (w, [])
unfolding take_word
take_word_alone [] h = refl
take_word_alone (c ∷ w) (a, h) = rw (a, take_word) (rw (take_word_alone w h) refl)

skip_space_alone : (w : Bytes) → All (λ c. is_space c ≡ false) w → skip_space w ≡ w
unfolding skip_space
skip_space_alone [] h = refl
skip_space_alone (c ∷ w) (a, h) = rw a refl

-- A word by itself.
pub read_word_alone : (w : Bytes) → IsWord w → read_word w ≡ some (w, [])
read_word_alone [] h = absurd (h.nonempty refl)
read_word_alone (c ∷ w) h =
    read_word-skip (c ∷ w)
    ∙ ap word_of (skip_space_alone (c ∷ w) h.solid)
    ∙ ap (λ (p : Bytes × Bytes). some p) (take_word_alone (c ∷ w) h.solid)

read_word-append :
    (b x rest w : Bytes)
    → read_word b ≡ some (x, rest)
    → read_word (b ++ 32 ∷ w) ≡ some (x, rest ++ 32 ∷ w)
unfolding read_word
read_word-append b x rest w e = elim (skip_space-head b) [
  | inl f ↦ absurd (ground arith)
  | inr (c, cs, f, g, h) ↦
      (let taken : some (take_word (c ∷ cs)) ≡ some (x, rest) =
          sym (read_word-skip b ∙ ap word_of f) ∙ e in
        read_word-skip (b ++ 32 ∷ w)
        ∙ ap word_of (skip_space-append b (32 ∷ w) c cs f)
        ∙ ap (λ (p : Bytes × Bytes). some p) (take_word-append (c ∷ cs) w)
        ∙ ap (λ (p : Bytes × Bytes). some (p.0, p.1 ++ 32 ∷ w)) (eq_of_some-eq taken))
]

read_word_blanks : (b t : Bytes) → read_word b ≡ none → read_word (b ++ t) ≡ read_word t
unfolding read_word
read_word_blanks b t e = elim (skip_space-head b) [
  | inl f ↦ read_word-skip (b ++ t) ∙ ap word_of (skip_space_none b t f) ∙ sym (read_word-skip t)
  | inr (c, cs, f, g, h) ↦ absurd (ground arith)
]

pub members-empty : members [] ≡ []
unfolding members members_loop read_word skip_space
members-empty = refl

pub members-alone : (w : Bytes) → IsWord w → members w ≡ w ∷ []
members-alone w h =
    members-some w w [] (read_word_alone w h) ∙ ap (λ (l : List Bytes). w ∷ l) members-empty

members_loop_added :
    (fuel : ℕ) (b w : Bytes)
    → length b < fuel
    → IsWord w
    → members (b ++ 32 ∷ w) ≡ members_loop fuel b ++ w ∷ []
members_loop_added zero b w h k = absurd (omega arith)
members_loop_added (suc fuel) b w h k = elim (Option-cases (read_word b)) [
  | inl e ↦
      members-some (b ++ 32 ∷ w) w []
        (read_word_blanks b (32 ∷ w) e ∙ read_word_blank w ∙ read_word_alone w k)
      ∙ ap (λ (l : List Bytes). w ∷ l) members-empty
      ∙ sym (ap (λ (l : List Bytes). l ++ w ∷ []) (members_loop-words fuel b ∙ ap (words fuel) e))
  | inr ((x, rest), e) ↦
      let ih = members_loop_added fuel rest w (omega (arith, h, read_word-length b x rest e)) k in
      members-some (b ++ 32 ∷ w) x (rest ++ 32 ∷ w) (read_word-append b x rest w e)
      ∙ ap (λ (l : List Bytes). x ∷ l) ih
      ∙ sym (ap (λ (l : List Bytes). l ++ w ∷ []) (members_loop-words fuel b ∙ ap (words fuel) e))
]

-- A word behind a blank comes after the words of the text.
pub members-added : (b w : Bytes) → IsWord w → members (b ++ 32 ∷ w) ≡ members b ++ w ∷ []
members-added b w h =
    members_loop_added (suc (length b)) b w (omega arith) h
    ∙ ap (λ (l : List Bytes). l ++ w ∷ []) (members_loop-members (suc (length b)) b (omega arith))

take_word-solid : (b : Bytes) → All (λ c. is_space c ≡ false) (take_word b).0
unfolding take_word
take_word-solid [] = tt
take_word-solid (c ∷ b) = elim (Bool-cases (is_space c)) [
  | inl k ↦ rw (k, take_word) tt
  | inr k ↦ rw (k, take_word) (k, take_word-solid b)
]

read_word-IsWord : (b w rest : Bytes) → read_word b ≡ some (w, rest) → IsWord w
unfolding read_word
read_word-IsWord b w rest e = elim (skip_space-head b) [
  | inl f ↦ absurd (ground arith)
  | inr (c, cs, f, g, h) ↦
      (let same : (take_word (c ∷ cs)).0 ≡ w = ground arith in
        record {
          nonempty = λ k. starts c cs g (same ∙ k);
          solid = subst (All (λ d. is_space d ≡ false)) same (take_word-solid (c ∷ cs));
        })
]
  where
    starts : (c : ℕ) (cs : Bytes) → is_space c ≡ false → (take_word (c ∷ cs)).0 ≢ []
    starts c cs g k = unfold take_word in ground arith

-- What is read is words.
pub members-IsWord : (b : Bytes) → All IsWord (members b)
unfolding members
members-IsWord b = go (suc (length b)) b
  where
    go : (fuel : ℕ) (b : Bytes) → All IsWord (members_loop fuel b)
    go zero b = unfold members_loop in tt
    go (suc fuel) b = elim (Option-cases (read_word b)) [
      | inl e ↦ subst (All IsWord) (sym (members_loop-words fuel b ∙ ap (words fuel) e)) tt
      | inr ((w, rest), e) ↦
          let ih = go fuel rest in
          subst (All IsWord) (sym (members_loop-words fuel b ∙ ap (words fuel) e))
            (read_word-IsWord b w rest e, ih)
    ]
