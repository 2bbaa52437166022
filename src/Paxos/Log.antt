-- ===== src/Paxos/Log.antt =====
-- log.cc: the durable log of an acceptor, as the text that the code writes and reads.
pub mod Numbers
pub mod RoundTrip
use distributed_system_lab.Base.{
  ℕ, zero, suc, ◌+◌, ◌≡◌, refl, Bool, true, false, Option, none, some, List, [], ◌∷◌, ◌++◌, arith,
  leb, nat_eq, if◌then◌else◌, length, ◌||◌, ◌&&◌, ◌==◌,
}
use distributed_system_lab.Base.Bytes.{Bytes, bytes, bytes_key}
use distributed_system_lab.Base.Map.{insert}
use distributed_system_lab.Base.Tests.{nat_key}
use distributed_system_lab.Paxos.Proposal.{PropT}
use distributed_system_lab.Paxos.State.{Acceptor}
use Numbers.{put_unsigned, is_space, skip_space, read_unsigned}

pub data LogRecord : Type 0 where
  done : ℕ → Bytes → LogRecord
  propseen : PropT → LogRecord
  accepted : PropT → Bytes → LogRecord

-- `fault` is a failed VERIFY, or a record that ends too early: the code would go on with a
-- number that it has not read.
pub data Loaded {ℓ} (A : Type ℓ) : Type ℓ where
  loaded : A → Loaded A
  fault : Loaded A
  out_of_fuel : Loaded A

-- loginstance, logprop and logaccept append this text to the file.
unfoldable pub log_line : LogRecord → Bytes
log_line (done instance v) =
    bytes "done" ++ (bytes " " ++ (put_unsigned instance ++ (bytes " " ++ (v ++ bytes "\n"))))
log_line (propseen p) =
    bytes "propseen" ++ (bytes " " ++ (put_unsigned p.n ++ (bytes " " ++ (p.m ++ bytes "\n"))))
log_line (accepted p v) =
    bytes "accepted"
    ++ (bytes " " ++ (put_unsigned p.n ++ (bytes " " ++ (p.m ++ (bytes " " ++ (v ++ bytes "\n"))))))

unfoldable pub append_log : Acceptor → LogRecord → Acceptor
append_log s r = record s { file = s.file ++ log_line r }

unfoldable pub loginstance : Acceptor → ℕ → Bytes → Acceptor
unfolding append_log
loginstance s instance v = append_log s (done instance v)

unfoldable pub logprop : Acceptor → PropT → Acceptor
unfolding append_log
logprop s n_h = append_log s (propseen n_h)

unfoldable pub logaccept : Acceptor → PropT → Bytes → Acceptor
unfolding append_log
logaccept s n v = append_log s (accepted n v)

-- The characters up to the next white space; `from >> word` after the leading white space.
unfoldable pub take_word : Bytes → Bytes × Bytes
take_word [] = ([], [])
take_word (c ∷ cs) =
    let (w, rest) = take_word cs in if is_space c then ([], c ∷ cs) else (c ∷ w, rest)

unfoldable pub read_word : Bytes → Option (Bytes × Bytes)
read_word b = elim (skip_space b) [ [] ↦ none | c ∷ cs ↦ some (take_word (c ∷ cs)) ]

-- from.get()
unfoldable pub skip_char : Bytes → Bytes
skip_char [] = []
skip_char (c ∷ cs) = cs

-- getline(from, v)
unfoldable pub getline : Bytes → Bytes × Bytes
getline [] = ([], [])
getline (c ∷ cs) = let (l, rest) = getline cs in if nat_eq c 10 then ([], cs) else (c ∷ l, rest)

-- One record, after its `type` has been read.
unfoldable pub read_done : Bytes → Option (LogRecord × Bytes)
read_done b = elim (read_unsigned b) [
  | none ↦ none
  | some (instance, rest) ↦
      let (v, rest') = getline (skip_char rest) in some (done instance v, rest')
]

unfoldable pub read_prop : Bytes → Option (PropT × Bytes)
read_prop b = elim (read_unsigned b) [
  | none ↦ none
  | some (n, rest) ↦ elim (read_word rest) [
    | none ↦ none
    | some (m, rest') ↦ some (record { n = n; m = m }, rest')
  ]
]

unfoldable pub read_propseen : Bytes → Option (LogRecord × Bytes)
unfolding read_prop
read_propseen b = elim (read_prop b) [ none ↦ none | some (p, rest) ↦ some (propseen p, rest) ]

unfoldable pub read_accepted : Bytes → Option (LogRecord × Bytes)
unfolding read_prop
read_accepted b = elim (read_prop b) [
  | none ↦ none
  | some (p, rest) ↦ let (v, rest') = getline (skip_char rest) in some (accepted p v, rest')
]

unfoldable pub read_record : Bytes → Bytes → Option (LogRecord × Bytes)
unfolding read_done read_propseen read_accepted
read_record type b =
    if type == bytes "done"
    then read_done b
    else if type == bytes "propseen"
    then read_propseen b
    else if type == bytes "accepted"
    then read_accepted b
    else none

-- What logread does to the acceptor for one record.
unfoldable pub apply : Acceptor → LogRecord → Acceptor
apply s (done instance v) = record s {
  values = insert instance v s.values;
  instance_h = instance;
  v_a = [];
  n_h = record { n = 0; m = s.n_h.m };
  n_a = record { n = 0; m = s.n_a.m };
}
apply s (propseen p) = record s { n_h = p }
apply s (accepted p v) = record s { n_a = p; v_a = v }

-- The loop of logread; each round reads at least one character.
unfoldable pub logread_loop : ℕ → Acceptor → Bytes → Loaded Acceptor
logread_loop zero s b = out_of_fuel
logread_loop (suc fuel) s b = elim (read_word b) [
  | none ↦ loaded s
  | some (type, rest) ↦ elim (read_record type rest) [
    | none ↦ fault
    | some (r, rest') ↦ logread_loop fuel (apply s r) rest'
  ]
]

unfoldable pub logread : Acceptor → Loaded Acceptor
unfolding logread_loop
logread s = logread_loop (suc (length s.file)) s s.file

-- The lines of a text, each with its end of line again.
unfoldable pub dump_lines : ℕ → Bytes → Bytes
dump_lines zero b = []
dump_lines (suc fuel) b = elim b [
  | [] ↦ []
  | c ∷ cs ↦ let (l, rest) = getline (c ∷ cs) in l ++ (bytes "\n" ++ dump_lines fuel rest)
]

unfoldable pub dump : Acceptor → Bytes
unfolding dump_lines
dump s = dump_lines (length s.file) s.file

unfoldable pub restore : Acceptor → Bytes → Acceptor
restore s text = record s { file = text }
