-- ===== src/Paxos/Log/Numbers.antt =====
-- Unsigned numbers in a text stream: `f << instance` and `from >> instance` of log.cc.
use distributed_system_lab.Base.{
  ℕ, zero, suc, ◌+◌, ◌-◌, ◌*◌, ◌/◌, ◌%◌, ◌^◌, ◌<◌, ◌≡◌, refl, Bool, true, false, Option, none, some,
  [], ◌∷◌, ◌++◌, arith, leb, ltb, nat_eq, if◌then◌else◌, ◌||◌, ◌&&◌, Bool-cases, inl, inr,
}
use distributed_system_lab.Base.Bytes.{Bytes}

unfoldable pub is_space : ℕ → Bool
is_space c = nat_eq c 32 || (leb 9 c && leb c 13)

unfoldable pub is_digit : ℕ → Bool
is_digit c = leb 48 c && leb c 57

unfoldable pub skip_space : Bytes → Bytes
skip_space [] = []
skip_space (c ∷ cs) = if is_space c then skip_space cs else c ∷ cs

-- Decimal digits of `n` in front of `acc`.
unfoldable pub put_digits : ℕ → ℕ → Bytes → Bytes
put_digits zero n acc = acc
put_digits (suc fuel) n acc =
    let rest = put_digits fuel (n / 10) ((48 + n % 10) ∷ acc) in
    if ltb n 10 then (48 + n) ∷ acc else rest

unfoldable pub put_unsigned : ℕ → Bytes
unfolding put_digits
put_unsigned n = put_digits (suc n) n []

unfoldable pub get_digits : ℕ → Bytes → ℕ × Bytes
get_digits a [] = (a, [])
get_digits a (c ∷ cs) =
    let more = get_digits (a * 10 + (c - 48)) cs in if is_digit c then more else (a, c ∷ cs)

-- A number needs a digit, and must fit an `unsigned`; the extraction fails otherwise.
unfoldable pub fits_unsigned : ℕ × Bytes → Option (ℕ × Bytes)
fits_unsigned (n, rest) = if ltb n (2 ^ 32) then some (n, rest) else none

unfoldable pub read_digits : Bytes → Option (ℕ × Bytes)
unfolding fits_unsigned
read_digits [] = none
read_digits (c ∷ cs) = if is_digit c then fits_unsigned (get_digits 0 (c ∷ cs)) else none

-- A minus sign negates modulo 2 ^ 32, as `strtoul` does.
unfoldable pub negate : Option (ℕ × Bytes) → Option (ℕ × Bytes)
negate none = none
negate (some (n, rest)) = some ((2 ^ 32 - n) % 2 ^ 32, rest)

unfoldable pub read_signed : Bytes → Option (ℕ × Bytes)
unfolding read_digits negate
read_signed [] = none
read_signed (c ∷ cs) =
    if nat_eq c b'+'
    then read_digits cs
    else if nat_eq c b'-'
    then negate (read_digits cs)
    else read_digits (c ∷ cs)

unfoldable pub read_unsigned : Bytes → Option (ℕ × Bytes)
unfolding read_signed
read_unsigned b = read_signed (skip_space b)

-- What follows a number in the text.
abbrev pub EndsNumber : Bytes → Type 0
EndsNumber [] = Unit
EndsNumber (c ∷ cs) = is_digit c ≡ false

pub get_digits-put_digits :
    (fuel n : ℕ) (acc : Bytes) → n < fuel → get_digits 0 (put_digits fuel n acc) ≡ get_digits n acc
unfolding get_digits put_digits is_digit
get_digits-put_digits zero n acc h = absurd (omega arith)
get_digits-put_digits (suc fuel) n acc h = elim (Bool-cases (ltb n 10)) [
  | inl e ↦ ground arith
  | inr e ↦ ground (arith, get_digits-put_digits fuel (n / 10) ((48 + n % 10) ∷ acc))
]

pub get_digits-end : (n : ℕ) (rest : Bytes) → EndsNumber rest → get_digits n rest ≡ (n, rest)
unfolding get_digits
get_digits-end n [] h = refl
get_digits-end n (c ∷ rest) h = ground arith

pub put_digits-append :
    (fuel n : ℕ) (acc rest : Bytes)
    → put_digits fuel n acc ++ rest ≡ put_digits fuel n (acc ++ rest)
unfolding put_digits
put_digits-append zero n acc rest = refl
put_digits-append (suc fuel) n acc rest =
    ground (arith, put_digits-append fuel (n / 10) ((48 + n % 10) ∷ acc) rest)

-- The text of a number begins with a digit.
pub put_digits-head :
    (fuel n : ℕ) (acc : Bytes)
    → n < fuel
    → (c : ℕ) × (cs : Bytes) × (put_digits fuel n acc ≡ c ∷ cs)
      × (is_digit c ≡ true)
      × (is_space c ≡ false)
      × (nat_eq c b'+' ≡ false)
      × (nat_eq c b'-' ≡ false)
unfolding put_digits is_digit is_space
put_digits-head zero n acc h = absurd (omega arith)
put_digits-head (suc fuel) n acc h = elim (Bool-cases (ltb n 10)) [
  | inl e ↦ (48 + n, acc, rw e, ground arith, ground arith, ground arith, ground arith)
  | inr e ↦ rw e (put_digits-head fuel (n / 10) ((48 + n % 10) ∷ acc) (ground arith))
]

pub read_unsigned-put_unsigned :
    (n : ℕ) (rest : Bytes)
    → n < 2 ^ 32
    → EndsNumber rest
    → read_unsigned (put_unsigned n ++ rest) ≡ some (n, rest)
unfolding read_unsigned skip_space put_unsigned
read_unsigned-put_unsigned n rest h e =
    let (c, cs, head, digit, space, plus, minus) =
      put_digits-head (suc n) n ([] ++ rest) (omega arith) in
    let p = get_digits-put_digits (suc n) n rest (omega arith) in
    ground (
      arith,
      put_digits-append (suc n) n [] rest,
      head,
      digit,
      space,
      plus,
      minus,
      p,
      get_digits-end n rest e,
    )
