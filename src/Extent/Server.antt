-- ===== src/Extent/Server.antt =====
-- `class extent_server` of extent_server.h and extent_server.cc. `now` is what `time(NULL)` returns;
-- every call holds the mutex.
pub mod Contents
use distributed_system_lab.Base.{ℕ, ◌%◌, ◌^◌, Option, none, some, List, [], ◌∷◌, length}
use distributed_system_lab.Base.Tests.{nat_key}
use distributed_system_lab.Base.Bytes.{Bytes}
use distributed_system_lab.Base.Map.{Map, lookup, insert, erase, or_else}
use distributed_system_lab.Extent.{Attr, Status, ok, ioerr}

pub record ExtentServer : Type 0 where
  pub contents : Map ℕ Bytes
  pub attributes : Map ℕ Attr

-- A value-initialised element
abbrev pub no_attr : Attr
no_attr = record { atime = 0; mtime = 0; ctime = 0; size = 0 }

unfoldable pub extent_server : ExtentServer
unfolding insert
extent_server = record { contents = insert 1 [] []; attributes = insert 1 no_attr [] }

-- `atime` is not set: it is what the variable happens to hold.
unfoldable pub put : ExtentServer → ℕ → Bytes → ℕ → ℕ → ExtentServer × Status
put s id buf now atime =
    let a : Attr = record {
      atime = atime;
      mtime = now % 2 ^ 32;
      ctime = now % 2 ^ 32;
      size = length buf % 2 ^ 32;
    } in
    (record { contents = insert id buf s.contents; attributes = insert id a s.attributes }, ok)

unfoldable pub get : ExtentServer → ℕ → Bytes → ℕ → ExtentServer × Status × Bytes
get s id buf now = elim (lookup id s.contents) [
  | none ↦ (s, ioerr, buf)
  | some b ↦
      let a = or_else (lookup id s.attributes) no_attr in
      (record s { attributes = insert id (record a { atime = now % 2 ^ 32 }) s.attributes }, ok, b)
]

unfoldable pub getattr : ExtentServer → ℕ → Attr → Status × Attr
getattr s id a = elim (lookup id s.attributes) [ none ↦ (ioerr, a) | some b ↦ (ok, b) ]

unfoldable pub remove : ExtentServer → ℕ → ExtentServer × Status
remove s id = elim (lookup id s.contents) [
  | none ↦ (s, ioerr)
  | some b ↦ (record { contents = erase id s.contents; attributes = erase id s.attributes }, ok)
]
