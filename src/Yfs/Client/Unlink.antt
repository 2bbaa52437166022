-- ===== src/Yfs/Client/Unlink.antt =====
-- What unlink of yfs_client.cc does, over any extents that keep their laws.
use distributed_system_lab.Base.{
  ℕ, ◌≡◌, ◌≢◌, refl, ap, subst, ◌∙◌, true, false, Option, none, some, List, [], arith,
}
use distributed_system_lab.Base.Bytes.{Bytes}
use distributed_system_lab.Config.{members}
use distributed_system_lab.Yfs.Extents.{Extents, ExtentLaws}
use distributed_system_lab.Yfs.Names.{find, isdir, Unlinked, unlink_loop}
use distributed_system_lab.Yfs.Names.Unlinking.{
  kept, unlinked-members, unlink_loop-found, find-kept, find-kept_self,
}
use distributed_system_lab.Yfs.Client.{yfs_ok, yfs_exist, get, remove, lookupfile, unlink}
use distributed_system_lab.Yfs.Client.Files.{get-some, put-Leaves}
use distributed_system_lab.Yfs.Client.Directory.{Lookup, lookupfile-Lookup}

module _ {S : Type 0} (e : Extents S) (laws : ExtentLaws e) where
  -- unlink in a directory that is there, of a name that a file in it has.
  unlink-some :
      (s : S) (parent : ℕ) (name d : Bytes) (inum : ℕ)
      → laws.IsGood s
      → laws.content s parent ≡ some d
      → isdir parent ≡ true
      → (unlink_loop name (members d) 0 (record { ost = []; found = false; inum = inum })).found
        ≡ true
      → ((unlink e s parent name inum).1 ≡ yfs_ok)
        × laws.IsGood (unlink e s parent name inum).0
        × (laws.content (unlink e s parent name inum).0 parent
            ≡ some
                (unlink_loop name
                  (members d)
                  0
                  (record { ost = []; found = false; inum = inum })).ost)
        × ((j : ℕ)
            → parent ≢ j
            → (unlink_loop name
                (members d)
                0
                (record { ost = []; found = false; inum = inum })).inum
              ≢ j
            → laws.content (unlink e s parent name inum).0 j ≡ laws.content s j)
  unfolding unlink remove
  unlink-some s parent name d inum h k dir there =
      let (status, same, left) = get-some e laws s parent [] d h k in
      let good = laws.remove-IsGood (get e s parent []).0 w.inum left.good in
      let (done, last) =
        put-Leaves e laws (e.remove (get e s parent []).0 w.inum).0 parent w.ost good in
      rw dir (
        rw status (
          rw same (
            rw there (
              rw (laws.remove_ok (get e s parent []).0 w.inum) (
                rw done (
                  refl,
                  last.good,
                  last.contents parent ∙ ground arith,
                  λ j p q.
                      last.contents j
                      ∙ ground (
                        arith,
                        p,
                        laws.remove-content (get e s parent []).0 w.inum j left.good q,
                        left.contents j,
                      ),
                ))))))
    where
      w : Unlinked
      w = unlink_loop name (members d) 0 (record { ost = []; found = false; inum = inum })

  -- unlink of a name whose first entry in the directory is a file succeeds: afterwards a lookup finds
  -- at most a directory under the name, and every other name is found as before.
  pub lookupfile-unlink :
      (s : S) (parent : ℕ) (name d : Bytes) (inum n x : ℕ)
      → laws.IsGood s
      → laws.content s parent ≡ some d
      → isdir parent ≡ true
      → find name (members d) ≡ some n
      → isdir n ≡ false
      → ((unlink e s parent name inum).1 ≡ yfs_ok)
        × ((lookupfile e (unlink e s parent name inum).0 parent name x).1 ≡ yfs_exist
            → isdir (lookupfile e (unlink e s parent name inum).0 parent name x).2 ≡ true)
        × ((other : Bytes)
            → name ≢ other
            → Lookup (find other (members d)) x (
              (lookupfile e (unlink e s parent name inum).0 parent other x).1,
              (lookupfile e (unlink e s parent name inum).0 parent other x).2,
            ))
  lookupfile-unlink s parent name d inum n x h k dir found file = (
    done.0,
    λ exists. only_directory (find name (kept name (members d))) refl (looked name) exists,
    λ other ne.
        subst
          (λ (o : Option ℕ). Lookup o x (
            (lookupfile e (unlink e s parent name inum).0 parent other x).1,
            (lookupfile e (unlink e s parent name inum).0 parent other x).2,
          ))
          (find-kept name other (members d) ne) (looked other),
  )
    where
      u : Unlinked
      u = unlink_loop name (members d) 0 (record { ost = []; found = false; inum = inum })

      done :
          ((unlink e s parent name inum).1 ≡ yfs_ok)
          × laws.IsGood (unlink e s parent name inum).0
          × (laws.content (unlink e s parent name inum).0 parent ≡ some u.ost)
          × ((j : ℕ)
              → parent ≢ j
              → u.inum ≢ j
              → laws.content (unlink e s parent name inum).0 j ≡ laws.content s j)
      done =
          unlink-some s parent name d inum h k dir
            (unlink_loop-found name (members d) 0 _ n found file)

      looked :
          (other : Bytes)
          → Lookup (find other (kept name (members d))) x (
            (lookupfile e (unlink e s parent name inum).0 parent other x).1,
            (lookupfile e (unlink e s parent name inum).0 parent other x).2,
          )
      looked other =
          subst
            (λ (l : List Bytes). Lookup (find other l) x (
              (lookupfile e (unlink e s parent name inum).0 parent other x).1,
              (lookupfile e (unlink e s parent name inum).0 parent other x).2,
            ))
            (unlinked-members name d inum)
            (lookupfile-Lookup e laws (unlink e s parent name inum).0 parent other u.ost x done.1
              done.2)

      only_directory :
          (o : Option ℕ)
          → find name (kept name (members d)) ≡ o
          → Lookup o x (
            (lookupfile e (unlink e s parent name inum).0 parent name x).1,
            (lookupfile e (unlink e s parent name inum).0 parent name x).2,
          )
          → (lookupfile e (unlink e s parent name inum).0 parent name x).1 ≡ yfs_exist
          → isdir (lookupfile e (unlink e s parent name inum).0 parent name x).2 ≡ true
      only_directory none q l exists = absurd (ground (arith, l.0, exists))
      only_directory (some m) q l exists = ap isdir l.1 ∙ find-kept_self name (members d) m q
