-- ===== src/Extent/Client.antt =====
-- `class extent_client` of extent_client.h and extent_client.cc: the write-back cache in front of
-- the extent server. A call works on the cache and on the server; `Moment` is what else it meets.
-- The mutex is released during an RPC; as the caller holds the lock on the extent, the calls of
-- one extent are modelled one after the other.
pub mod Coherence
pub mod View
pub mod Writes
pub mod Refinement
use distributed_system_lab.Base.{
  ℕ, ◌%◌, ◌^◌, Bool, true, false, Option, none, some, List, [], ◌∷◌, length, if◌then◌else◌,
}
use distributed_system_lab.Base.Tests.{nat_key}
use distributed_system_lab.Base.Bytes.{Bytes}
use distributed_system_lab.Base.Map.{Map, lookup, insert, erase, or_else}
use distributed_system_lab.Extent.{Attr, Status, ok, rpcerr, noent, ioerr}
use distributed_system_lab.Extent.Server.{ExtentServer, no_attr}
use distributed_system_lab.Extent.Server

-- Whether the RPCs get through, what `time(NULL)` returns, and what a local variable holds that is
-- not set.
pub record Moment : Type 0 where
  pub up : Bool
  pub now : ℕ
  pub junk : Attr

pub record ExtentClient : Type 0 where
  pub contents : Map ℕ Bytes
  pub attributes : Map ℕ Attr

abbrev pub is_ok : Status → Bool
is_ok ok = true
is_ok rpcerr = false
is_ok noent = false
is_ok ioerr = false

-- The RPCs.
unfoldable pub call_getattr : Moment → ExtentServer → ℕ → Attr → Status × Attr
call_getattr m s id a = if m.up then Server.getattr s id a else (rpcerr, a)

unfoldable pub call_get : Moment → ExtentServer → ℕ → Bytes → ExtentServer × Status × Bytes
call_get m s id buf = if m.up then Server.get s id buf m.now else (s, rpcerr, buf)

unfoldable pub call_put : Moment → ExtentServer → ℕ → Bytes → ExtentServer × Status
call_put m s id buf = if m.up then Server.put s id buf m.now m.junk.atime else (s, rpcerr)

unfoldable pub call_remove : Moment → ExtentServer → ℕ → ExtentServer × Status
call_remove m s id = if m.up then Server.remove s id else (s, rpcerr)

-- The attributes with the entry for `id`, which is asked for when it is missing.
unfoldable pub fill_attr : Moment → ExtentServer → Map ℕ Attr → ℕ → Attr → Status × Map ℕ Attr
unfolding call_getattr
fill_attr m s attributes id attr = elim (lookup id attributes) [
  | some a ↦ (ok, attributes)
  | none ↦ let (ret, a) = call_getattr m s id attr in (ret, insert id a attributes)
]

-- The contents with the entry for `id`; `ret` is the status so far.
unfoldable pub fill_content :
    Moment → ExtentServer → Map ℕ Bytes → ℕ → Bytes → Status → ExtentServer × Status × Map ℕ Bytes
unfolding call_get
fill_content m s contents id buf ret = elim (lookup id contents) [
  | some b ↦ (s, ret, contents)
  | none ↦ let (t, r, b) = call_get m s id buf in (t, r, insert id b contents)
]

-- A call that fails leaves nothing of the extent in the cache.
abbrev pub settled : Status → ℕ → ExtentClient → ExtentClient
settled ret id c =
    if is_ok ret
    then c
    else record { contents = erase id c.contents; attributes = erase id c.attributes }

unfoldable pub get :
    Moment → ExtentClient → ExtentServer → ℕ → Bytes → ExtentClient × ExtentServer × Status × Bytes
unfolding fill_attr fill_content
get m c s id buf =
    let (ret1, filled) = fill_attr m s c.attributes id m.junk in
    let attributes =
      insert id (record (or_else (lookup id filled) no_attr) { atime = m.now % 2 ^ 32 }) filled in
    let (t, ret, contents) = fill_content m s c.contents id buf ret1 in
    (
      settled ret id (record { contents = contents; attributes = attributes }),
      t,
      ret,
      or_else (lookup id contents) [],
    )

unfoldable pub getattr :
    Moment → ExtentClient → ExtentServer → ℕ → Attr → ExtentClient × Status × Attr
unfolding fill_attr
getattr m c s id attr =
    let (ret, attributes) = fill_attr m s c.attributes id attr in
    (
      settled ret id (record c { attributes = attributes }),
      ret,
      or_else (lookup id attributes) no_attr,
    )

unfoldable pub put : Moment → ExtentClient → ℕ → Bytes → ExtentClient × Status
put m c id buf =
    let a = or_else (lookup id c.attributes) no_attr in
    (
      record {
        contents = insert id buf c.contents;
        attributes =
            insert id
              (record a {
                mtime = m.now % 2 ^ 32;
                ctime = m.now % 2 ^ 32;
                size = length buf % 2 ^ 32;
              })
              c.attributes;
      },
      ok,
    )

unfoldable pub remove : ExtentClient → ℕ → ExtentClient × Status
remove c id = (record { contents = erase id c.contents; attributes = erase id c.attributes }, ok)

-- What flush sends to the server.
unfoldable pub write_back : Moment → ExtentClient → ExtentServer → ℕ → ExtentServer × Status
unfolding call_put call_remove
write_back m c s id = elim (lookup id c.attributes) [
  | none ↦ call_remove m s id
  | some a ↦ elim (lookup id c.contents) [ none ↦ (s, ok) | some buf ↦ call_put m s id buf ]
]

unfoldable pub flush :
    Moment → ExtentClient → ExtentServer → ℕ → ExtentClient × ExtentServer × Status
unfolding write_back
flush m c s id =
    let (t, ret) = write_back m c s id in
    (record { contents = erase id c.contents; attributes = erase id c.attributes }, t, ret)
