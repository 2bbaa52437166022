-- ===== src/Yfs/Names/Entries.antt =====
-- The entries of a directory in yfs_client.cc, as they are written and read.
use distributed_system_lab.Base.{
  ℕ, zero, suc, ◌+◌, ◌/◌, ◌%◌, ◌^◌, ◌<◌, ◌≡◌, refl, sym, ap, ◌∙◌, inl, inr, Bool, true, false,
  Option, none, some, List, [], ◌∷◌, ◌++◌, nat_eq, ltb, ◌==◌, if◌then◌else◌, All, All-append, arith,
  Bool-cases,
}
use distributed_system_lab.Base.Bytes.{Bytes, bytes_key, eq_of_bytes_eq}
use distributed_system_lab.Paxos.Log.Numbers.{
  is_space, is_digit, put_digits, put_unsigned, skip_space, put_digits-head, get_digits-put_digits,
  get_digits-end, put_digits-append,
}
use distributed_system_lab.Paxos.Log.RoundTrip.{IsWord}
use distributed_system_lab.Config.{members}
use distributed_system_lab.Yfs.Names.Words.{read_word_alone, members-added}
use distributed_system_lab.Yfs.Names.{
  read_inum, read_name, read_entry, c_str, is_named, find, entry, add_entry,
}

-- A name of a file: not empty, with no white space and no zero byte.
pub record IsName (name : Bytes) : Type 0 where
  pub word : IsWord name
  pub no_zero : All (λ c. nat_eq c 0 ≡ false) name

-- Digits are no white space.
put_digits-solid :
    (fuel n : ℕ) (acc : Bytes)
    → All (λ c. is_space c ≡ false) acc
    → All (λ c. is_space c ≡ false) (put_digits fuel n acc)
unfolding put_digits
put_digits-solid zero n acc h = h
put_digits-solid (suc fuel) n acc h = elim (Bool-cases (ltb n 10)) [
  | inl e ↦ rw (e, put_digits) (solid n (ground arith), h)
  | inr e ↦
      rw (e, put_digits)
        (put_digits-solid fuel (n / 10) ((48 + n % 10) ∷ acc) (solid (n % 10) (omega arith), h))
]
  where
    solid : (d : ℕ) → d < 10 → is_space (48 + d) ≡ false
    solid d k = unfold is_space in ground (arith, k)

pub entry-IsWord : (inum : ℕ) (name : Bytes) → IsName name → IsWord (entry inum name)
unfolding entry put_unsigned
entry-IsWord inum name h = record {
  nonempty = λ e.
      (let (c, cs, head, digit, space, plus, minus) =
          put_digits-head (suc inum) inum [] (omega arith) in
        ground (arith, e, head));
  solid =
      All-append (λ c. is_space c ≡ false) (put_digits (suc inum) inum []) (64 ∷ name)
        (put_digits-solid (suc inum) inum [] tt) (at_sign, h.word.solid);
}
  where
    at_sign : is_space 64 ≡ false
    at_sign = unfold is_space in refl

-- A number is read back.
read_inum-put_unsigned :
    (n : ℕ) (rest : Bytes)
    → n < 2 ^ 64
    → read_inum (put_unsigned n ++ 64 ∷ rest) ≡ (true, n, 64 ∷ rest)
unfolding read_inum skip_space put_unsigned
read_inum-put_unsigned n rest h =
    let (c, cs, head, digit, space, plus, minus) =
      put_digits-head (suc n) n ([] ++ 64 ∷ rest) (omega arith) in
    let p = get_digits-put_digits (suc n) n (64 ∷ rest) (omega arith) in
    ground (
      arith,
      put_digits-append (suc n) n [] (64 ∷ rest),
      head,
      digit,
      space,
      plus,
      minus,
      p,
      get_digits-end n (64 ∷ rest) (unfold is_digit in refl),
    )

read_name-at : (name : Bytes) → IsName name → read_name (64 ∷ name) ≡ name
unfolding read_name
read_name-at name h = ground (arith, read_word_alone name h.word)

-- An entry is read back.
pub read_entry-entry :
    (inum : ℕ) (name : Bytes)
    → inum < 2 ^ 64
    → IsName name
    → read_entry (entry inum name) ≡ (inum, name)
unfolding read_entry entry
read_entry-entry inum name h k =
    rw (read_inum-put_unsigned inum name h) (ap (λ (n : Bytes). (inum, n)) (read_name-at name k))

c_str-IsName : (name : Bytes) → All (λ c. nat_eq c 0 ≡ false) name → c_str name ≡ name
unfolding c_str
c_str-IsName [] h = refl
c_str-IsName (c ∷ cs) (a, h) = rw a (ap (λ (l : Bytes). c ∷ l) (c_str-IsName cs h))

pub is_named-entry :
    (inum : ℕ) (name other : Bytes)
    → inum < 2 ^ 64
    → IsName name
    → is_named other (entry inum name) ≡ (name == other)
unfolding is_named
is_named-entry inum name other h k =
    ap (λ (p : ℕ × Bytes). c_str p.1 == other) (read_entry-entry inum name h k)
    ∙ ap (λ (b : Bytes). b == other) (c_str-IsName name k.no_zero)

-- Two names of one entry are the same.
pub is_named_same :
    (name other file : Bytes)
    → is_named name file ≡ true
    → is_named other file ≡ true
    → name ≡ other
unfolding is_named
is_named_same name other file h k =
    sym (eq_of_bytes_eq (c_str (read_entry file).1) name h)
    ∙ eq_of_bytes_eq (c_str (read_entry file).1) other k

-- What is found when one more entry is looked at.
abbrev pub or_last : Option ℕ → Bool → ℕ → Option ℕ
or_last (some n) matches m = some n
or_last none matches m = if matches then some m else none

find-append :
    (name file : Bytes) (files : List Bytes)
    → find name (files ++ file ∷ [])
      ≡ or_last (find name files) (is_named name file) (read_entry file).0
unfolding find
find-append name file [] = refl
find-append name file (x ∷ files) = elim (Bool-cases (is_named name x)) [
  | inl e ↦ rw e refl
  | inr e ↦ rw e (find-append name file files)
]

-- What is found in a directory to which an entry was added.
pub find-add_entry :
    (d : Bytes) (inum : ℕ) (name other : Bytes)
    → inum < 2 ^ 64
    → IsName name
    → find other (members (add_entry d inum name))
      ≡ or_last (find other (members d)) (name == other) inum
unfolding add_entry
find-add_entry d inum name other h k =
    ap (find other) (members-added d (entry inum name) (entry-IsWord inum name k))
    ∙ find-append other (entry inum name) (members d)
    ∙ ap (λ (b : Bool). or_last (find other (members d)) b (read_entry (entry inum name)).0)
        (is_named-entry inum name other h k)
    ∙ ap (λ (p : ℕ × Bytes). or_last (find other (members d)) (name == other) p.0)
        (read_entry-entry inum name h k)
