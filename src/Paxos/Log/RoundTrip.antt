-- ===== src/Paxos/Log/RoundTrip.antt =====
-- What logread makes of the text that the log functions write.
use distributed_system_lab.Base.{
  ℕ, zero, suc, ◌^◌, ◌≤◌, ◌<◌, ◌≡◌, refl, ap, sym, ◌∙◌, true, false, some, List, [], ◌∷◌, ◌++◌,
  arith, nat_eq, length, length-append, ◌≢◌, ◌⊎◌, All, inl, inr,
}
use mathlib.Core.List.{append_assoc}
use distributed_system_lab.Base.Bytes.{Bytes, bytes, bytes_eq}
use distributed_system_lab.Paxos.Proposal.{PropT}
use distributed_system_lab.Paxos.State.{Acceptor}
use distributed_system_lab.Paxos.Log.{
  LogRecord, done, propseen, accepted, loaded, log_line, take_word, read_word, skip_char, getline,
  read_done, read_prop, read_propseen, read_accepted, read_record, apply, logread_loop, logread,
}
use distributed_system_lab.Paxos.Log.Numbers.{
  put_unsigned, is_space, is_digit, skip_space, read_unsigned, read_unsigned-put_unsigned,
}

-- A name that `>>` reads back: not empty, and with no white space.
pub record IsWord (w : Bytes) : Type 0 where
  pub nonempty : w ≢ []
  pub solid : All (λ c. is_space c ≡ false) w

-- A value that getline reads back.
abbrev pub IsLine : Bytes → Type 0
IsLine = All (λ c. nat_eq c 10 ≡ false)

abbrev pub IsWritable : LogRecord → Type 0
IsWritable (done instance v) = (instance < 2 ^ 32) × IsLine v
IsWritable (propseen p) = (p.n < 2 ^ 32) × IsWord p.m
IsWritable (accepted p v) = (p.n < 2 ^ 32) × IsWord p.m × IsLine v

getline-line : (v rest : Bytes) → IsLine v → getline (v ++ (10 ∷ rest)) ≡ (v, rest)
unfolding getline
getline-line [] rest h = refl
getline-line (c ∷ v) rest h = ground (arith, getline-line v rest h.1)

take_word-word :
    (w : Bytes) (c : ℕ) (rest : Bytes)
    → All (λ d. is_space d ≡ false) w
    → is_space c ≡ true
    → take_word (w ++ (c ∷ rest)) ≡ (w, c ∷ rest)
unfolding take_word
take_word-word [] c rest h e = ground arith
take_word-word (d ∷ w) c rest h e = ground (arith, take_word-word w c rest h.1 e)

pub read_word-word :
    (w : Bytes) (c : ℕ) (rest : Bytes)
    → IsWord w
    → is_space c ≡ true
    → read_word (w ++ (c ∷ rest)) ≡ some (w, c ∷ rest)
unfolding read_word skip_space
read_word-word [] c rest h e = absurd (h.nonempty refl)
read_word-word (d ∷ w) c rest h e = ground (arith, h.solid, take_word-word (d ∷ w) c rest h.solid e)

-- The blank between two items is skipped.
pub read_word_blank : (b : Bytes) → read_word (32 ∷ b) ≡ read_word b
unfolding read_word skip_space is_space
read_word_blank b = refl

read_unsigned_blank : (b : Bytes) → read_unsigned (32 ∷ b) ≡ read_unsigned b
unfolding read_unsigned skip_space is_space
read_unsigned_blank b = refl

read_prop-line :
    (p : PropT) (c : ℕ) (rest : Bytes)
    → p.n < 2 ^ 32
    → IsWord p.m
    → is_space c ≡ true
    → read_prop (32 ∷ (put_unsigned p.n ++ (32 ∷ (p.m ++ (c ∷ rest))))) ≡ some (p, c ∷ rest)
unfolding read_prop is_digit
read_prop-line p c rest h w e = ground (
  arith,
  read_unsigned_blank (put_unsigned p.n ++ (32 ∷ (p.m ++ (c ∷ rest)))),
  read_unsigned-put_unsigned p.n (32 ∷ (p.m ++ (c ∷ rest))) h refl,
  read_word_blank (p.m ++ (c ∷ rest)),
  read_word-word p.m c rest w e,
)

-- The text behind the type of a record.
record_tail : LogRecord → Bytes → Bytes
record_tail (done instance v) rest = 32 ∷ (put_unsigned instance ++ (32 ∷ (v ++ (10 ∷ rest))))
record_tail (propseen p) rest = 32 ∷ (put_unsigned p.n ++ (32 ∷ (p.m ++ (10 ∷ rest))))
record_tail (accepted p v) rest =
    32 ∷ (put_unsigned p.n ++ (32 ∷ (p.m ++ (32 ∷ (v ++ (10 ∷ rest))))))

abbrev record_type : LogRecord → Bytes
record_type (done instance v) = bytes "done"
record_type (propseen p) = bytes "propseen"
record_type (accepted p v) = bytes "accepted"

log_line-append :
    (r : LogRecord) (rest : Bytes) → log_line r ++ rest ≡ record_type r ++ record_tail r rest
unfolding log_line record_tail
log_line-append (done instance v) rest = simp append_assoc
log_line-append (propseen p) rest = simp append_assoc
log_line-append (accepted p v) rest = simp append_assoc

-- Before a record may stand the end of the line before, or nothing.
abbrev after_newline : Bytes → Bytes
after_newline b = 10 ∷ b

read_word_newline : (b : Bytes) → read_word (10 ∷ b) ≡ read_word b
unfolding read_word skip_space is_space
read_word_newline b = refl

read_word-record :
    (r : LogRecord) (rest : Bytes)
    → read_word (log_line r ++ rest) ≡ some (record_type r, record_tail r rest)
unfolding read_word skip_space is_space take_word record_tail
read_word-record (done instance v) rest = rw log_line-append refl
read_word-record (propseen p) rest = rw log_line-append refl
read_word-record (accepted p v) rest = rw log_line-append refl

read_record_done :
    (instance : ℕ) (v rest : Bytes)
    → instance < 2 ^ 32
    → IsLine v
    → read_record (bytes "done") (record_tail (done instance v) rest) ≡ some (done instance v, rest)
unfolding read_record read_done record_tail skip_char bytes_eq is_digit
read_record_done instance v rest h l = ground (
  arith,
  read_unsigned_blank (put_unsigned instance ++ (32 ∷ (v ++ (10 ∷ rest)))),
  read_unsigned-put_unsigned instance (32 ∷ (v ++ (10 ∷ rest))) h refl,
  getline-line v rest l,
)

read_record_propseen :
    (p : PropT) (rest : Bytes)
    → p.n < 2 ^ 32
    → IsWord p.m
    → read_record (bytes "propseen") (record_tail (propseen p) rest) ≡ some (propseen p, 10 ∷ rest)
unfolding read_record read_propseen record_tail bytes_eq is_space
read_record_propseen p rest h w = ground (arith, read_prop-line p 10 rest h w refl)

read_record_accepted :
    (p : PropT) (v rest : Bytes)
    → p.n < 2 ^ 32
    → IsWord p.m
    → IsLine v
    → read_record (bytes "accepted") (record_tail (accepted p v) rest) ≡ some (accepted p v, rest)
unfolding read_record read_accepted record_tail skip_char bytes_eq is_space
read_record_accepted p v rest h w l =
    ground (arith, read_prop-line p 32 (v ++ (10 ∷ rest)) h w refl, getline-line v rest l)

-- One round of logread takes one written record; after `propseen` the end of the line is left.
logread_loop-line :
    (fuel : ℕ) (s : Acceptor) (r : LogRecord) (rest : Bytes)
    → IsWritable r
    → (logread_loop (suc fuel) s (log_line r ++ rest) ≡ logread_loop fuel (apply s r) rest)
      ⊎ (logread_loop (suc fuel) s (log_line r ++ rest) ≡ logread_loop fuel (apply s r) (10 ∷ rest))
unfolding logread_loop
logread_loop-line fuel s (done instance v) rest w = inl (
    ground
      (arith, read_word-record (done instance v) rest, read_record_done instance v rest w.0 w.1))
logread_loop-line fuel s (propseen p) rest w =
    inr (ground (arith, read_word-record (propseen p) rest, read_record_propseen p rest w.0 w.1))
logread_loop-line fuel s (accepted p v) rest w = inl (
    ground (arith, read_word-record (accepted p v) rest, read_record_accepted p v rest w.0 w.1 w.2))

logread_loop-newline :
    (fuel : ℕ) (s : Acceptor) (b : Bytes) → logread_loop fuel s (10 ∷ b) ≡ logread_loop fuel s b
unfolding logread_loop
logread_loop-newline zero s b = refl
logread_loop-newline (suc fuel) s b = ground (arith, read_word_newline b)

-- The text that a list of records leaves in the file.
unfoldable pub log_text : List LogRecord → Bytes
log_text [] = []
log_text (r ∷ rs) = log_line r ++ log_text rs

unfoldable pub replay : Acceptor → List LogRecord → Acceptor
replay s [] = s
replay s (r ∷ rs) = replay (apply s r) rs

pub log_text-append : (xs ys : List LogRecord) → log_text (xs ++ ys) ≡ log_text xs ++ log_text ys
unfolding log_text
log_text-append [] ys = refl
log_text-append (x ∷ xs) ys =
    rw (log_text-append xs ys) (sym (append_assoc (log_line x) (log_text xs) (log_text ys)))

pub replay-append :
    (s : Acceptor) (xs ys : List LogRecord) → replay s (xs ++ ys) ≡ replay (replay s xs) ys
unfolding replay
replay-append s [] ys = refl
replay-append s (x ∷ xs) ys = replay-append (apply s x) xs ys

logread_loop-text :
    (fuel : ℕ) (s : Acceptor) (rs : List LogRecord)
    → All IsWritable rs
    → length rs < fuel
    → logread_loop fuel s (log_text rs) ≡ loaded (replay s rs)
unfolding log_text replay
logread_loop-text zero s rs w h = absurd (omega arith)
logread_loop-text (suc fuel) s [] w h = unfold logread_loop read_word skip_space in refl
logread_loop-text (suc fuel) s (r ∷ rs) w h =
    let ih : logread_loop fuel (apply s r) (log_text rs) ≡ loaded (replay (apply s r) rs) =
      logread_loop-text fuel (apply s r) rs w.1 (omega arith) in
    elim (logread_loop-line fuel s r (log_text rs) w.0) [
      | inl e ↦ e ∙ ih
      | inr e ↦ e ∙ (logread_loop-newline fuel (apply s r) (log_text rs) ∙ ih)
    ]

length-log_line : (r : LogRecord) → 1 ≤ length (log_line r)
unfolding log_line
length-log_line (done instance v) = omega arith
length-log_line (propseen p) = omega arith
length-log_line (accepted p v) = omega arith

length-log_text : (rs : List LogRecord) → length rs ≤ length (log_text rs)
unfolding log_text
length-log_text [] = omega arith
length-log_text (r ∷ rs) =
    omega (arith, length-append (log_line r) (log_text rs), length-log_line r, length-log_text rs)

-- Reading back a file of written records applies each of them, in order, and the file is read to
-- its end without a fault.
pub logread-log_text :
    (s : Acceptor) (rs : List LogRecord)
    → All IsWritable rs
    → s.file ≡ log_text rs
    → logread s ≡ loaded (replay s rs)
unfolding logread
logread-log_text s rs w e =
    ap (λ (b : Bytes). logread_loop (suc (length b)) s b) e
    ∙ logread_loop-text (suc (length (log_text rs))) s rs w (omega (arith, length-log_text rs))
