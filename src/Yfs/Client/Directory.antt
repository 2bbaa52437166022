-- ===== src/Yfs/Client/Directory.antt =====
-- What the directory operations of yfs_client.cc do, over any extents that keep their laws.
use distributed_system_lab.Base.{
  ℕ, ◌^◌, ◌<◌, ◌≡◌, ◌≢◌, refl, sym, ap, subst, ◌∙◌, Bool, true, false, not, Option, none, some, [],
  nat_eq, ◌==◌, if◌then◌else◌, arith,
}
use distributed_system_lab.Base.Bytes.{Bytes, bytes_key, bytes_eq_iff}
use distributed_system_lab.Config.{members}
use distributed_system_lab.Yfs.Extents.{Extents, ExtentLaws}
use distributed_system_lab.Yfs.Names.{find, add_entry, isfile, isdir}
use distributed_system_lab.Yfs.Names.Entries.{IsName, or_last, find-add_entry}
use distributed_system_lab.Yfs.Client.{
  YfsStatus, yfs_ok, yfs_exist, get, put, lookupfile_text, lookupfile, new_inum, createfile,
}
use distributed_system_lab.Yfs.Client.Files.{Leaves, get-some, put-Leaves}

-- What lookupfile answers for what is found.
abbrev pub Lookup : Option ℕ → ℕ → YfsStatus × ℕ → Type 0
Lookup none inum r = (r.0 ≡ yfs_ok) × (r.1 ≡ inum)
Lookup (some n) inum r = (r.0 ≡ yfs_exist) × (r.1 ≡ n)

lookupfile_text-Lookup :
    (d name : Bytes) (inum : ℕ) → Lookup (find name (members d)) inum (lookupfile_text d name inum)
unfolding lookupfile_text
lookupfile_text-Lookup d name inum = go (find name (members d))
  where
    go :
        (o : Option ℕ)
        → Lookup o inum
            (elim o as (λ x. YfsStatus × ℕ) [ none ↦ (yfs_ok, inum) | some n ↦ (yfs_exist, n) ])
    go none = (refl, refl)
    go (some n) = (refl, refl)

-- The number of a file has bit 31, that of a directory has not.
pub new_inum-isdir : (random : ℕ) (f : Bool) → isdir (new_inum random f) ≡ not f
unfolding new_inum isdir isfile
new_inum-isdir random true = ground arith
new_inum-isdir random false = ground arith

module _ {S : Type 0} (e : Extents S) (laws : ExtentLaws e) where
  -- A lookup in a directory that is there.
  pub lookupfile-Lookup :
      (s : S) (dinum : ℕ) (name d : Bytes) (inum : ℕ)
      → laws.IsGood s
      → laws.content s dinum ≡ some d
      → Lookup
          (find name (members d))
          inum
          ((lookupfile e s dinum name inum).1, (lookupfile e s dinum name inum).2)
  unfolding lookupfile
  lookupfile-Lookup s dinum name d inum h k =
      let (status, same, left) = get-some e laws s dinum [] d h k in
      rw status (rw same (lookupfile_text-Lookup d name inum))

  -- createfile in a directory that is there. The name is taken: nothing changes.
  createfile-taken :
      (s : S) (dinum : ℕ) (f : Bool) (name d : Bytes) (random finum n : ℕ)
      → laws.IsGood s
      → laws.content s dinum ≡ some d
      → find name (members d) ≡ some n
      → ((createfile e s dinum f name random finum).1 ≡ yfs_exist)
        × Leaves e laws s (createfile e s dinum f name random finum).0 (laws.content s)
  unfolding createfile
  createfile-taken s dinum f name d random finum n h k there =
      let (status, same, left) = get-some e laws s dinum [] d h k in
      rw status (rw same (rw (taken status) (refl, left)))
    where
      taken : (get e s dinum []).1 ≡ yfs_ok → (lookupfile_text d name finum).0 ≡ yfs_exist
      taken z = unfold lookupfile_text in ground (arith, there)

  -- It is free: the directory gets an entry and the new extent is empty.
  createfile-free :
      (s : S) (dinum : ℕ) (f : Bool) (name d : Bytes) (random finum : ℕ)
      → laws.IsGood s
      → laws.content s dinum ≡ some d
      → find name (members d) ≡ none
      → ((createfile e s dinum f name random finum).1 ≡ yfs_ok)
        × ((createfile e s dinum f name random finum).2 ≡ new_inum random f)
        × Leaves e laws s (createfile e s dinum f name random finum).0 (λ j.
          if nat_eq (new_inum random f) j
          then some []
          else if nat_eq dinum j
          then some (add_entry d (new_inum random f) name)
          else laws.content s j)
  unfolding createfile
  createfile-free s dinum f name d random finum h k free =
      let (status, same, left) = get-some e laws s dinum [] d h k in
      let (linked, second) =
        put-Leaves e laws (get e s dinum []).0 dinum (add_entry d (new_inum random f) name)
          left.good in
      let (made, third) =
        put-Leaves e laws
          (put e (get e s dinum []).0 dinum (add_entry d (new_inum random f) name)).0
          (new_inum random f) [] second.good in
      rw status (
        rw same (
          rw not_there (
            rw linked (
              rw made (
                refl,
                refl,
                record {
                  good = third.good;
                  contents =
                      λ j. third.contents j ∙ ground (arith, second.contents j, left.contents j);
                },
              )))))
    where
      not_there : (lookupfile_text d name finum).0 ≡ yfs_ok
      not_there = unfold lookupfile_text in ground (arith, free)

  -- createfile of a name that a directory does not have, when random() gives a number below 2 ^ 31
  -- that is not the directory's own, succeeds: its number, with bit 31 just for a file, is an
  -- empty extent, a lookup finds it under the name, every other name is found as before, and the
  -- extents of other numbers keep their contents.
  pub lookupfile-createfile :
      (s : S) (dinum : ℕ) (f : Bool) (name d : Bytes) (random finum inum : ℕ)
      → laws.IsGood s
      → laws.content s dinum ≡ some d
      → IsName name
      → find name (members d) ≡ none
      → random < 2 ^ 31
      → new_inum random f ≢ dinum
      → ((createfile e s dinum f name random finum).1 ≡ yfs_ok)
        × (isdir (createfile e s dinum f name random finum).2 ≡ not f)
        × (laws.content
              (createfile e s dinum f name random finum).0
              (createfile e s dinum f name random finum).2
            ≡ some [])
        × ((lookupfile e (createfile e s dinum f name random finum).0 dinum name inum).1
            ≡ yfs_exist)
        × ((lookupfile e (createfile e s dinum f name random finum).0 dinum name inum).2
            ≡ (createfile e s dinum f name random finum).2)
        × ((other : Bytes)
            → name ≢ other
            → Lookup (find other (members d)) inum (
              (lookupfile e (createfile e s dinum f name random finum).0 dinum other inum).1,
              (lookupfile e (createfile e s dinum f name random finum).0 dinum other inum).2,
            ))
        × ((j : ℕ)
            → dinum ≢ j
            → new_inum random f ≢ j
            → laws.content (createfile e s dinum f name random finum).0 j ≡ laws.content s j)
  lookupfile-createfile s dinum f name d random finum inum h k named free small ne = (
    made.0,
    ap isdir made.1 ∙ new_inum-isdir random f,
    made.2.contents (createfile e s dinum f name random finum).2 ∙ ground (arith, made.1),
    here.0,
    here.1 ∙ sym made.1,
    λ other differs.
        subst
          (λ (o : Option ℕ). Lookup o inum (
            (lookupfile e (createfile e s dinum f name random finum).0 dinum other inum).1,
            (lookupfile e (createfile e s dinum f name random finum).0 dinum other inum).2,
          ))
          (others other differs) (looked other),
    λ j p q. made.2.contents j ∙ ground (arith, p, q),
  )
    where
      made :
          ((createfile e s dinum f name random finum).1 ≡ yfs_ok)
          × ((createfile e s dinum f name random finum).2 ≡ new_inum random f)
          × Leaves e laws s (createfile e s dinum f name random finum).0 (λ j.
            if nat_eq (new_inum random f) j
            then some []
            else if nat_eq dinum j
            then some (add_entry d (new_inum random f) name)
            else laws.content s j)
      made = createfile-free s dinum f name d random finum h k free

      bounded : new_inum random f < 2 ^ 64
      bounded = unfold new_inum isfile in ground (arith, small)

      text :
          laws.content (createfile e s dinum f name random finum).0 dinum
          ≡ some (add_entry d (new_inum random f) name)
      text = made.2.contents dinum ∙ ground (arith, ne)

      looked :
          (other : Bytes)
          → Lookup (find other (members (add_entry d (new_inum random f) name))) inum (
            (lookupfile e (createfile e s dinum f name random finum).0 dinum other inum).1,
            (lookupfile e (createfile e s dinum f name random finum).0 dinum other inum).2,
          )
      looked other =
          lookupfile-Lookup (createfile e s dinum f name random finum).0 dinum other
            (add_entry d (new_inum random f) name) inum made.2.good text

      found : find name (members (add_entry d (new_inum random f) name)) ≡ some (new_inum random f)
      found =
          find-add_entry d (new_inum random f) name name bounded named
          ∙ ground (arith, free, bytes_eq_iff name name)

      here :
          ((lookupfile e (createfile e s dinum f name random finum).0 dinum name inum).1
            ≡ yfs_exist)
          × ((lookupfile e (createfile e s dinum f name random finum).0 dinum name inum).2
              ≡ new_inum random f)
      here =
          subst
            (λ (o : Option ℕ). Lookup o inum (
              (lookupfile e (createfile e s dinum f name random finum).0 dinum name inum).1,
              (lookupfile e (createfile e s dinum f name random finum).0 dinum name inum).2,
            ))
            found (looked name)

      others :
          (other : Bytes)
          → name ≢ other
          → find other (members (add_entry d (new_inum random f) name)) ≡ find other (members d)
      others other differs =
          find-add_entry d (new_inum random f) name other bounded named
          ∙ last (find other (members d))
        where
          last : (o : Option ℕ) → or_last o (name == other) (new_inum random f) ≡ o
          last (some n) = refl
          last none = ground (arith, bytes_eq_iff name other, differs)
