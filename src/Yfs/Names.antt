-- ===== src/Yfs/Names.antt =====
-- The text of a directory in yfs_client.cc: entries `inum@name` with blanks between them.
pub mod Words
pub mod Entries
pub mod Unlinking
use distributed_system_lab.Base.{
  ℕ, suc, ◌+◌, ◌-◌, ◌*◌, ◌/◌, ◌%◌, ◌^◌, ◌≡◌, Bool, true, false, not, ◌&&◌, ◌||◌, Option, none, some,
  List, [], ◌∷◌, ◌++◌, nat_eq, ltb, ◌==◌, if◌then◌else◌,
}
use distributed_system_lab.Base.Bytes.{Bytes, bytes, bytes_key}
use distributed_system_lab.Paxos.Log.{read_word, take_word}
use distributed_system_lab.Paxos.Log.Numbers.{is_digit, skip_space, get_digits, put_unsigned}
use distributed_system_lab.Config.{members}

-- `iss >> finum` for an `unsigned long long`: whether it succeeds, the number that it sets in any
-- case, and the rest.
unfoldable pub fits_inum : ℕ × Bytes → Bool × ℕ × Bytes
fits_inum (n, rest) = if ltb n (2 ^ 64) then (true, n, rest) else (false, 2 ^ 64 - 1, rest)

unfoldable pub read_digits : Bytes → Bool × ℕ × Bytes
unfolding fits_inum
read_digits [] = (false, 0, [])
read_digits (c ∷ cs) = if is_digit c then fits_inum (get_digits 0 (c ∷ cs)) else (false, 0, c ∷ cs)

-- A minus sign negates modulo 2 ^ 64.
unfoldable pub negated : Bool × ℕ × Bytes → Bool × ℕ × Bytes
negated (good, n, rest) = if good then (true, (2 ^ 64 - n) % 2 ^ 64, rest) else (false, n, rest)

unfoldable pub read_signed : Bytes → Bool × ℕ × Bytes
unfolding read_digits negated
read_signed [] = (false, 0, [])
read_signed (c ∷ cs) =
    if nat_eq c b'+'
    then read_digits cs
    else if nat_eq c b'-'
    then negated (read_digits cs)
    else read_digits (c ∷ cs)

unfoldable pub read_inum : Bytes → Bool × ℕ × Bytes
unfolding read_signed
read_inum b = read_signed (skip_space b)

-- `iss.get(); iss >> fname`
unfoldable pub read_name : Bytes → Bytes
unfolding read_word
read_name [] = []
read_name (c ∷ rest) = elim (read_word rest) [ none ↦ [] | some (fname, r) ↦ fname ]

-- The number and the name of an entry. When the number cannot be read nothing more is.
unfoldable pub read_entry : Bytes → ℕ × Bytes
unfolding read_inum read_name
read_entry file =
    let (good, finum, rest) = read_inum file in
    if good then (finum, read_name rest) else (finum, [])

-- fname.c_str()
unfoldable pub c_str : Bytes → Bytes
c_str [] = []
c_str (c ∷ cs) = let rest = c_str cs in if nat_eq c 0 then [] else c ∷ rest

-- The test strcmp(fname.c_str(), name) == 0 on an entry.
unfoldable pub is_named : Bytes → Bytes → Bool
unfolding read_entry c_str
is_named name file = c_str (read_entry file).1 == name

-- The number of the first entry with the name.
unfoldable pub find : Bytes → List Bytes → Option ℕ
unfolding is_named read_entry
find name [] = none
find name (file ∷ files) =
    let rest = find name files in if is_named name file then some (read_entry file).0 else rest

-- `ost << dcontent << " " << inum << '@' << name`
unfoldable pub entry : ℕ → Bytes → Bytes
unfolding put_unsigned
entry inum name = put_unsigned inum ++ 64 ∷ name

unfoldable pub add_entry : Bytes → ℕ → Bytes → Bytes
unfolding entry
add_entry dcontent inum name = dcontent ++ 32 ∷ entry inum name

-- inum & 0x80000000
unfoldable pub isfile : ℕ → Bool
isfile inum = nat_eq (inum / 2 ^ 31 % 2) 1

unfoldable pub isdir : ℕ → Bool
unfolding isfile
isdir inum = not (isfile inum)

-- The loop of unlink: the text without the files of that name, `count` of whose entries are
-- written already, whether there was one, and the number of the last.
pub record Unlinked : Type 0 where
  pub ost : Bytes
  pub found : Bool
  pub inum : ℕ

unfoldable pub unlink_loop : Bytes → List Bytes → ℕ → Unlinked → Unlinked
unfolding is_named read_entry isdir
unlink_loop name [] count u = u
unlink_loop name (file ∷ files) count u =
    if not (is_named name file) || isdir (read_entry file).0
    then unlink_loop name files (suc count)
        (record u { ost = u.ost ++ ((if ltb 0 count then 32 ∷ [] else []) ++ file) })
    else unlink_loop name files count (record u { found = true; inum = (read_entry file).0 })
