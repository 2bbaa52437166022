-- ===== src/Yfs/Client/Files.antt =====
-- What the file operations of yfs_client.cc do, over any extents that keep their laws.
use distributed_system_lab.Base.{
  ℕ, ◌+◌, ◌-◌, ◌/◌, ◌≤◌, ◌≡◌, ◌≢◌, refl, ap, subst, ◌∙◌, Option, none, some, [], ltb, nat_eq,
  if◌then◌else◌, length, arith,
}
use distributed_system_lab.Base.Bytes.{Bytes}
use distributed_system_lab.Extent.{Status, ok, ioerr}
use distributed_system_lab.Extent.Client.{is_ok}
use distributed_system_lab.Extent.Client.View.{Answers}
use distributed_system_lab.Yfs.Extents.{Extents, ExtentLaws}
use distributed_system_lab.Yfs.Client.{
  YfsStatus, yfs_ok, yfs_noent, yfs_ioerr, is_yfs_ok, take, drop, overwrite, resize, get, put, read,
  write, setsize,
}
use distributed_system_lab.Yfs.Client.Content.{take-drop-overwrite, length-overwrite, length-resize}

module _ {S : Type 0} (e : Extents S) (laws : ExtentLaws e) where
  -- What an operation leaves of the contents.
  pub record Leaves (s t : S) (f : ℕ → Option Bytes) : Type 0 where
    pub good : laws.IsGood t
    pub contents : (j : ℕ) → laws.content t j ≡ f j

  -- The get of an extent that is there.
  pub get-some :
      (s : S) (inum : ℕ) (buf b : Bytes)
      → laws.IsGood s
      → laws.content s inum ≡ some b
      → ((get e s inum buf).1 ≡ yfs_ok)
        × ((get e s inum buf).2 ≡ b)
        × Leaves s (get e s inum buf).0 (laws.content s)
  unfolding get
  get-some s inum buf b h k = (
    ap (λ (r : Status). if is_ok r then yfs_ok else yfs_noent) answer.0,
    answer.1,
    record { good = laws.get-IsGood s inum buf h; contents = λ j. laws.get-content s inum buf j h },
  )
    where
      answer : ((e.get s inum buf).1 ≡ ok) × ((e.get s inum buf).2 ≡ b)
      answer =
          subst (λ (o : Option Bytes). Answers o (e.get s inum buf).1 (e.get s inum buf).2) k
            (laws.get-Answers s inum buf h)

  -- The get of one that is not.
  pub get-none :
      (s : S) (inum : ℕ) (buf : Bytes)
      → laws.IsGood s
      → laws.content s inum ≡ none
      → ((get e s inum buf).1 ≡ yfs_noent) × Leaves s (get e s inum buf).0 (laws.content s)
  unfolding get
  get-none s inum buf h k = (
    ap (λ (r : Status). if is_ok r then yfs_ok else yfs_noent) answer,
    record { good = laws.get-IsGood s inum buf h; contents = λ j. laws.get-content s inum buf j h },
  )
    where
      answer : (e.get s inum buf).1 ≡ ioerr
      answer =
          subst (λ (o : Option Bytes). Answers o (e.get s inum buf).1 (e.get s inum buf).2) k
            (laws.get-Answers s inum buf h)

  pub put-Leaves :
      (s : S) (inum : ℕ) (buf : Bytes)
      → laws.IsGood s
      → ((put e s inum buf).1 ≡ yfs_ok)
        × Leaves s (put e s inum buf).0 (λ j. if nat_eq inum j then some buf else laws.content s j)
  unfolding put
  put-Leaves s inum buf h = (
    ap (λ (r : Status). if is_ok r then yfs_ok else yfs_ioerr) (laws.put_ok s inum buf),
    record { good = laws.put-IsGood s inum buf h; contents = λ j. laws.put-content s inum buf j h },
  )

  -- A get and then a put of what is made of the content.
  change : S → ℕ → (Bytes → Bytes) → S × YfsStatus
  change s inum f =
      let (t, ret, b) = get e s inum [] in
      if is_yfs_ok ret then put e t inum (f b) else (t, yfs_noent)

  change-some :
      (s : S) (inum : ℕ) (f : Bytes → Bytes) (b : Bytes)
      → laws.IsGood s
      → laws.content s inum ≡ some b
      → ((change s inum f).1 ≡ yfs_ok)
        × Leaves s (change s inum f).0 (λ j. if nat_eq inum j then some (f b) else laws.content s j)
  unfolding change
  change-some s inum f b h k =
      let (status, same, kept) = get-some s inum [] b h k in
      let (done, left) = put-Leaves (get e s inum []).0 inum (f b) kept.good in
      rw status (
        rw same (
          done,
          record {
            good = left.good;
            contents = λ j.
                left.contents j
                ∙ ap (λ (o : Option Bytes). if nat_eq inum j then some (f b) else o)
                    (kept.contents j);
          },
        ))

  change-none :
      (s : S) (inum : ℕ) (f : Bytes → Bytes)
      → laws.IsGood s
      → laws.content s inum ≡ none
      → ((change s inum f).1 ≡ yfs_noent) × Leaves s (change s inum f).0 (laws.content s)
  unfolding change
  change-none s inum f h k = let (status, kept) = get-none s inum [] h k in rw status (refl, kept)

  -- The read of a file that is there.
  read-some :
      (s : S) (inum size off : ℕ) (buf b : Bytes)
      → laws.IsGood s
      → laws.content s inum ≡ some b
      → ((read e s inum size off buf).1 ≡ yfs_ok)
        × ((read e s inum size off buf).2
            ≡ take size (drop (if ltb (length b) off then length b else off) b))
  unfolding read
  read-some s inum size off buf b h k =
      let (status, same, kept) = get-some s inum buf b h k in
      rw status (
        refl,
        ap (λ (l : Bytes). take size (drop (if ltb (length l) off then length l else off) l)) same,
      )

  -- A write to a file that is there succeeds, the bytes that it has written are read back, wherever
  -- they start, and no other extent has changed.
  pub read-write :
      (s : S) (inum size off : ℕ) (buf junk b : Bytes)
      → laws.IsGood s
      → laws.content s inum ≡ some b
      → size ≤ length buf
      → ((write e s inum size off buf).1 ≡ yfs_ok)
        × ((read e (write e s inum size off buf).0 inum size off junk).1 ≡ yfs_ok)
        × ((read e (write e s inum size off buf).0 inum size off junk).2 ≡ take size buf)
        × ((j : ℕ)
            → laws.content (write e s inum size off buf).0 j
              ≡ (if nat_eq inum j then some (overwrite b size off buf) else laws.content s j))
  read-write s inum size off buf junk b h k le =
      let (status, left) = changed in
      let there : laws.content (write e s inum size off buf).0 inum
          ≡ some (overwrite b size off buf) =
        left.contents inum ∙ ground arith in
      let (fine, bytes) =
        read-some (write e s inum size off buf).0 inum size off junk (overwrite b size off buf)
          left.good there in
      (
        status,
        fine,
        bytes
            ∙ ap (λ (n : ℕ). take size (drop n (overwrite b size off buf))) inside
            ∙ take-drop-overwrite b size off buf le,
        left.contents,
      )
    where
      changed :
          ((write e s inum size off buf).1 ≡ yfs_ok)
          × Leaves s
              (write e s inum size off buf).0
              (λ j. if nat_eq inum j then some (overwrite b size off buf) else laws.content s j)
      changed =
          unfold write change in change-some s inum (λ (c : Bytes). overwrite c size off buf) b h k

      inside :
          (if ltb (length (overwrite b size off buf)) off
            then length (overwrite b size off buf)
            else off)
          ≡ off
      inside = ground (arith, length-overwrite b size off buf le)

  -- setsize of a file that is there succeeds and changes no other extent. A file that is longer than
  -- the size is cut to it; a shorter one grows by half of what it lacks, rounded up, so that it gets
  -- the size only if it lacks no more than one byte.
  pub setsize-length :
      (s : S) (inum size : ℕ) (b : Bytes)
      → laws.IsGood s
      → laws.content s inum ≡ some b
      → ((setsize e s inum size).1 ≡ yfs_ok)
        × ((c : Bytes) × (laws.content (setsize e s inum size).0 inum ≡ some c)
            × (length c
                ≡ (if ltb size (length b) then size else length b + (size - length b + 1) / 2)))
        × ((j : ℕ) → inum ≢ j → laws.content (setsize e s inum size).0 j ≡ laws.content s j)
  setsize-length s inum size b h k =
      let (status, left) = changed in
      (
        status,
        (resize b size, left.contents inum ∙ ground arith, length-resize b size),
        λ j ne. left.contents j ∙ ground arith,
      )
    where
      changed :
          ((setsize e s inum size).1 ≡ yfs_ok)
          × Leaves s
              (setsize e s inum size).0
              (λ j. if nat_eq inum j then some (resize b size) else laws.content s j)
      changed = unfold setsize change in change-some s inum (λ (c : Bytes). resize c size) b h k

  -- A read, a write and setsize of a file that is not there fail and change no content.
  pub absent_file :
      (s : S) (inum size off : ℕ) (buf : Bytes)
      → laws.IsGood s
      → laws.content s inum ≡ none
      → ((read e s inum size off buf).1 ≡ yfs_noent)
        × ((write e s inum size off buf).1 ≡ yfs_noent)
        × ((setsize e s inum size).1 ≡ yfs_noent)
        × ((j : ℕ)
            → (laws.content (read e s inum size off buf).0 j ≡ laws.content s j)
              × (laws.content (write e s inum size off buf).0 j ≡ laws.content s j)
              × (laws.content (setsize e s inum size).0 j ≡ laws.content s j))
  unfolding read write setsize
  absent_file s inum size off buf h k =
      let (asked, kept) = get-none s inum buf h k in
      let (status, left) = get-none s inum [] h k in
      rw asked
        (rw status (refl, refl, refl, λ j. (kept.contents j, left.contents j, left.contents j)))
