-- ===== src/Tests/Yfs.antt =====
-- A file and a directory of yfs_client.cc, kept in the cache of extent_client.cc.
use distributed_system_lab.Base.{
  ℕ, ◌+◌, ◌-◌, ◌/◌, ◌≡◌, ◌≢◌, refl, true, false, none, some, [], nat_eq, ltb, if◌then◌else◌, length,
  arith,
}
use distributed_system_lab.Base.Tests.{nat_key}
use distributed_system_lab.Base.Bytes.{Bytes, bytes, bytes_eq}
use distributed_system_lab.Config.{members, members_loop}
use distributed_system_lab.Paxos.Log.{read_word, take_word}
use distributed_system_lab.Paxos.Log.Numbers.{is_space, is_digit, skip_space, get_digits}
use distributed_system_lab.Extent.Client.Refinement.{Session}
use distributed_system_lab.Yfs.Extents.{Extents, ExtentLaws}
use distributed_system_lab.Yfs.Extents.Cache.{cache, cache-ExtentLaws}
use distributed_system_lab.Yfs.Names.{
  fits_inum, read_digits, read_signed, read_inum, read_name, read_entry, c_str, is_named, find,
  isfile, isdir,
}
use distributed_system_lab.Yfs.Names.Entries.{IsName}
use distributed_system_lab.Yfs.Client.{
  yfs_ok, yfs_exist, take, overwrite, read, write, setsize, new_inum, createfile, lookupfile,
  unlink,
}
use distributed_system_lab.Yfs.Client.Content.{overwrite-get_elem?}
use distributed_system_lab.Base.Lists.{get_elem?}
use distributed_system_lab.Yfs.Client.Files.{read-write, setsize-length}
use distributed_system_lab.Yfs.Client.Directory.{Lookup, lookupfile-createfile}
use distributed_system_lab.Yfs.Client.Unlink.{lookupfile-unlink}
use distributed_system_lab.Tests.ExtentClient.{at_noon, fresh, fresh-IsCoherent}

abbrev disk : Extents Session
disk = cache at_noon

laws : ExtentLaws disk
laws = cache-ExtentLaws at_noon refl

-- A file with a content and a directory with an entry for it.
abbrev file : ℕ
file = 2147483653

abbrev written : Session
written = (disk.put fresh file (bytes "hello")).0

abbrev linked : Session
linked = (disk.put written 1 (bytes "5@d 2147483653@b")).0

written-IsGood : laws.IsGood written
unfolding laws
written-IsGood =
    laws.put-IsGood fresh file (bytes "hello") (unfold cache-ExtentLaws in fresh-IsCoherent)

written-content : laws.content written file ≡ some (bytes "hello")
written-content =
    laws.put-content fresh file (bytes "hello") file
      (unfold laws cache-ExtentLaws in fresh-IsCoherent)

linked-content : laws.content linked 1 ≡ some (bytes "5@d 2147483653@b")
linked-content = laws.put-content written 1 (bytes "5@d 2147483653@b") 1 written-IsGood

linked-IsGood : laws.IsGood linked
linked-IsGood = laws.put-IsGood written 1 (bytes "5@d 2147483653@b") written-IsGood

-- Beyond the end of the file.
read-write_example :
    ((write disk written file 3 7 (bytes "abcd")).1 ≡ yfs_ok)
    × ((read disk (write disk written file 3 7 (bytes "abcd")).0 file 3 7 []).1 ≡ yfs_ok)
    × ((read disk (write disk written file 3 7 (bytes "abcd")).0 file 3 7 []).2
        ≡ take 3 (bytes "abcd"))
    × ((j : ℕ)
        → laws.content (write disk written file 3 7 (bytes "abcd")).0 j ≡ (
            if nat_eq file j
            then some (overwrite (bytes "hello") 3 7 (bytes "abcd"))
            else laws.content written j))
read-write_example =
    read-write disk laws written file 3 7 (bytes "abcd") [] (bytes "hello") written-IsGood
      written-content (omega arith)

setsize-length_example :
    ((setsize disk written file 10).1 ≡ yfs_ok)
    × ((c : Bytes) × (laws.content (setsize disk written file 10).0 file ≡ some c)
        × (length c ≡ (
            if ltb 10 (length (bytes "hello"))
            then 10
            else length (bytes "hello") + (10 - length (bytes "hello") + 1) / 2)))
    × ((j : ℕ)
        → file ≢ j
        → laws.content (setsize disk written file 10).0 j ≡ laws.content written j)
setsize-length_example =
    setsize-length disk laws written file 10 (bytes "hello") written-IsGood written-content

free_name : find (bytes "c") (members (bytes "5@d 2147483653@b")) ≡ none
unfolding find members members_loop read_word take_word skip_space is_space is_named read_entry
    read_inum read_signed read_digits fits_inum get_digits is_digit read_name c_str bytes_eq
free_name = refl

taken_name : find (bytes "b") (members (bytes "5@d 2147483653@b")) ≡ some file
unfolding find members members_loop read_word take_word skip_space is_space is_named read_entry
    read_inum read_signed read_digits fits_inum get_digits is_digit read_name c_str bytes_eq
taken_name = refl

c-IsName : IsName (bytes "c")
c-IsName = record {
  word = record { nonempty = λ e. ground arith; solid = unfold is_space in (refl, tt) };
  no_zero = (refl, tt);
}

other_number : new_inum 9 true ≢ 1
other_number = unfold new_inum isfile in ground arith

lookupfile-createfile_example :
    ((createfile disk linked 1 true (bytes "c") 9 0).1 ≡ yfs_ok)
    × (isdir (createfile disk linked 1 true (bytes "c") 9 0).2 ≡ false)
    × (laws.content
          (createfile disk linked 1 true (bytes "c") 9 0).0
          (createfile disk linked 1 true (bytes "c") 9 0).2
        ≡ some [])
    × ((lookupfile disk (createfile disk linked 1 true (bytes "c") 9 0).0 1 (bytes "c") 0).1
        ≡ yfs_exist)
    × ((lookupfile disk (createfile disk linked 1 true (bytes "c") 9 0).0 1 (bytes "c") 0).2
        ≡ (createfile disk linked 1 true (bytes "c") 9 0).2)
    × ((other : Bytes)
        → bytes "c" ≢ other
        → Lookup (find other (members (bytes "5@d 2147483653@b"))) 0 (
          (lookupfile disk (createfile disk linked 1 true (bytes "c") 9 0).0 1 other 0).1,
          (lookupfile disk (createfile disk linked 1 true (bytes "c") 9 0).0 1 other 0).2,
        ))
    × ((j : ℕ)
        → 1 ≢ j
        → new_inum 9 true ≢ j
        → laws.content (createfile disk linked 1 true (bytes "c") 9 0).0 j ≡ laws.content linked j)
lookupfile-createfile_example =
    lookupfile-createfile disk laws linked 1 true (bytes "c") (bytes "5@d 2147483653@b") 9 0 0
      linked-IsGood linked-content c-IsName free_name (omega arith) other_number

lookupfile-unlink_example :
    ((unlink disk linked 1 (bytes "b") 0).1 ≡ yfs_ok)
    × ((lookupfile disk (unlink disk linked 1 (bytes "b") 0).0 1 (bytes "b") 0).1 ≡ yfs_exist
        → isdir (lookupfile disk (unlink disk linked 1 (bytes "b") 0).0 1 (bytes "b") 0).2 ≡ true)
    × ((other : Bytes)
        → bytes "b" ≢ other
        → Lookup (find other (members (bytes "5@d 2147483653@b"))) 0 (
          (lookupfile disk (unlink disk linked 1 (bytes "b") 0).0 1 other 0).1,
          (lookupfile disk (unlink disk linked 1 (bytes "b") 0).0 1 other 0).2,
        ))
lookupfile-unlink_example =
    lookupfile-unlink disk laws linked 1 (bytes "b") (bytes "5@d 2147483653@b") 0 file 0
      linked-IsGood linked-content (unfold isdir isfile in refl) taken_name
      (unfold isdir isfile in refl)

-- Five bytes, and two more at offset three.
overwrite-get_elem?_example : get_elem? (overwrite (bytes "hello") 2 3 (bytes "xy")) 4 ≡ (
    if ltb 4 3
    then (if ltb 4 (length (bytes "hello")) then get_elem? (bytes "hello") 4 else some 0)
    else (if ltb 4 (3 + 2) then get_elem? (bytes "xy") (4 - 3) else get_elem? (bytes "hello") 4))
overwrite-get_elem?_example = overwrite-get_elem? (bytes "hello") 2 3 (bytes "xy") 4 (omega arith)
