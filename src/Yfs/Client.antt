-- ===== src/Yfs/Client.antt =====
-- `class yfs_client` of yfs_client.h and yfs_client.cc. An operation holds the locks on its extents
-- from its entry to its return, so that it is one step; the locks are not part of it. Sizes and
-- offsets are not negative.
pub mod Strings
pub mod Content
pub mod Files
pub mod Directory
pub mod Unlink
use distributed_system_lab.Base.{
  ℕ, zero, suc, ◌+◌, ◌-◌, ◌%◌, ◌^◌, ◌≡◌, Bool, true, false, not, Option, none, some, List, [], ◌∷◌,
  ◌++◌, ltb, leb, nat_eq, if◌then◌else◌, length,
}
use distributed_system_lab.Base.Bytes.{Bytes}
use distributed_system_lab.Extent.{Attr, Status, ok, rpcerr, noent, ioerr}
use distributed_system_lab.Extent.Client.{is_ok}
use distributed_system_lab.Config.{members}
use distributed_system_lab.Yfs.Extents.{Extents}
use distributed_system_lab.Yfs.Names.{find, add_entry, isfile, isdir, Unlinked, unlink_loop}

-- yfs_client::xxstatus, with its prefix.
pub data YfsStatus : Type 0 where
  yfs_ok yfs_rpcerr yfs_noent yfs_ioerr yfs_exist : YfsStatus

abbrev pub is_yfs_ok : YfsStatus → Bool
is_yfs_ok yfs_ok = true
is_yfs_ok yfs_rpcerr = false
is_yfs_ok yfs_noent = false
is_yfs_ok yfs_ioerr = false
is_yfs_ok yfs_exist = false

pub record Fileinfo : Type 0 where
  pub size : ℕ
  pub atime : ℕ
  pub mtime : ℕ
  pub ctime : ℕ

pub record Dirinfo : Type 0 where
  pub atime : ℕ
  pub mtime : ℕ
  pub ctime : ℕ

-- s.substr(0, n) and s.substr(n)
unfoldable pub take : ℕ → Bytes → Bytes
take zero b = []
take (suc n) [] = []
take (suc n) (c ∷ b) = c ∷ take n b

unfoldable pub drop : ℕ → Bytes → Bytes
drop zero b = b
drop (suc n) [] = []
drop (suc n) (c ∷ b) = drop n b

unfoldable pub zeros : ℕ → Bytes
zeros zero = []
zeros (suc n) = 0 ∷ zeros n

-- The string that write puts; `buf` has at least `size` bytes. The variables `n` and `i` of the code
-- are ints: the length of the content and the offset are supposed to be below 2 ^ 31.
unfoldable pub overwrite : Bytes → ℕ → ℕ → Bytes → Bytes
unfolding take drop zeros
overwrite content size off buf =
    let end = if ltb (off + size) (length content) then drop (off + size) content else [] in
    let start =
      if leb off (length content)
      then take off content
      else content ++ zeros (off - length content) in
    (start ++ take size buf) ++ end

-- The loop of setsize, on fuel: `for (i = 0; i < size - buf.length(); i++) buf.append(" ")`.
unfoldable pub extend : ℕ → ℕ → ℕ → Bytes → Bytes
extend zero i size buf = buf
extend (suc fuel) i size buf =
    let longer = extend fuel (suc i) size (buf ++ 32 ∷ []) in
    if ltb i (size - length buf) then longer else buf

unfoldable pub resize : Bytes → ℕ → Bytes
unfolding take extend
resize buf size = if ltb size (length buf) then take size buf else extend (suc size) 0 size buf

-- lookupfile on the text of a directory.
unfoldable pub lookupfile_text : Bytes → Bytes → ℕ → YfsStatus × ℕ
unfolding find members
lookupfile_text dcontent name inum = elim (find name (members dcontent)) [
  | none ↦ (yfs_ok, inum)
  | some finum ↦ (yfs_exist, finum)
]

-- createfile's number for what random() gives.
unfoldable pub new_inum : ℕ → Bool → ℕ
unfolding isfile
new_inum random f =
    if f then (if isfile random then random else random + 2 ^ 31) else random % 2 ^ 31

module _ {S : Type 0} (e : Extents S) where
  unfoldable pub put : S → ℕ → Bytes → S × YfsStatus
  put s inum content =
      let (t, ret) = e.put s inum content in (t, if is_ok ret then yfs_ok else yfs_ioerr)

  unfoldable pub get : S → ℕ → Bytes → S × YfsStatus × Bytes
  get s inum buf =
      let (t, ret, b) = e.get s inum buf in (t, if is_ok ret then yfs_ok else yfs_noent, b)

  unfoldable pub remove : S → ℕ → S × YfsStatus
  remove s inum = let (t, ret) = e.remove s inum in (t, if is_ok ret then yfs_ok else yfs_noent)

  unfoldable pub getcontent : S → ℕ → Bytes → S × YfsStatus × Bytes
  unfolding get
  getcontent s inum buf = get s inum buf

  -- `a` is the attributes as they are before they are set.
  unfoldable pub getfile : S → ℕ → Attr → Fileinfo → S × YfsStatus × Fileinfo
  getfile s inum a fin =
      let (t, ret, b) = e.getattr s inum a in
      if is_ok ret
      then (t, yfs_ok, record { size = b.size; atime = b.atime; mtime = b.mtime; ctime = b.ctime })
      else (t, yfs_ioerr, fin)

  unfoldable pub getdir : S → ℕ → Attr → Dirinfo → S × YfsStatus × Dirinfo
  getdir s inum a din =
      let (t, ret, b) = e.getattr s inum a in
      if is_ok ret
      then (t, yfs_ok, record { atime = b.atime; mtime = b.mtime; ctime = b.ctime })
      else (t, yfs_ioerr, din)

  unfoldable pub setsize : S → ℕ → ℕ → S × YfsStatus
  unfolding get put resize
  setsize s inum size =
      let (t, ret, buf) = get s inum [] in
      if is_yfs_ok ret then put t inum (resize buf size) else (t, yfs_noent)

  unfoldable pub read : S → ℕ → ℕ → ℕ → Bytes → S × YfsStatus × Bytes
  unfolding get take drop
  read s inum size off buf =
      let (t, ret, b) = get s inum buf in
      if is_yfs_ok ret
      then (t, yfs_ok, take size (drop (if ltb (length b) off then length b else off) b))
      else (t, yfs_noent, b)

  unfoldable pub write : S → ℕ → ℕ → ℕ → Bytes → S × YfsStatus
  unfolding get put overwrite
  write s inum size off buf =
      let (t, ret, content) = get s inum [] in
      if is_yfs_ok ret then put t inum (overwrite content size off buf) else (t, yfs_noent)

  -- lookupfile; `inum` is left as it is unless the name is there.
  unfoldable pub lookupfile : S → ℕ → Bytes → ℕ → S × YfsStatus × ℕ
  unfolding get lookupfile_text
  lookupfile s dinum name inum =
      let (t, ret, dcontent) = get s dinum [] in
      let (found, finum) = lookupfile_text dcontent name inum in
      if is_yfs_ok ret then (t, found, finum) else (t, yfs_noent, inum)

  -- createfile, with what random() gives and what the number of an entry holds before it is set.
  unfoldable pub createfile : S → ℕ → Bool → Bytes → ℕ → ℕ → S × YfsStatus × ℕ
  unfolding get put lookupfile_text new_inum add_entry
  createfile s dinum f name random finum =
      let inum = new_inum random f in
      let (t, ret, dcontent) = get s dinum [] in
      let (u, linked) = put t dinum (add_entry dcontent inum name) in
      let (v, made) = put u inum [] in
      if not (is_yfs_ok ret)
      then (t, yfs_noent, inum)
      else if not (is_yfs_ok (lookupfile_text dcontent name finum).0)
      then (t, yfs_exist, inum)
      else if not (is_yfs_ok linked)
      then (u, yfs_ioerr, inum)
      else if not (is_yfs_ok made)
      then (v, yfs_ioerr, inum)
      else (v, yfs_ok, inum)

  -- `inum` is what the variable holds before it is set.
  unfoldable pub unlink : S → ℕ → Bytes → ℕ → S × YfsStatus
  unfolding get put remove unlink_loop
  unlink s parent name inum =
      let (t, ret, content) = get s parent [] in
      let w =
        unlink_loop name (members content) 0 (record { ost = []; found = false; inum = inum }) in
      let (u, gone) = remove t w.inum in
      let (v, written) = put u parent w.ost in
      if not (isdir parent)
      then (s, yfs_noent)
      else if not (is_yfs_ok ret)
      then (t, yfs_noent)
      else if not w.found
      then (t, yfs_noent)
      else if not (is_yfs_ok gone)
      then (u, yfs_ioerr)
      else if not (is_yfs_ok written)
      then (v, yfs_ioerr)
      else (v, yfs_ok)
