-- ===== src/Extent/Client/Coherence.antt =====
-- What the cache of extent_client.cc and the server hold together.
use distributed_system_lab.Base.{ℕ, ◌≡◌, refl, inl, inr, Option, none, some, arith, Bool-cases}
use distributed_system_lab.Base.Tests.{nat_key}
use distributed_system_lab.Base.Bytes.{Bytes}
use distributed_system_lab.Base.Map.{lookup}
use distributed_system_lab.Extent.Server.{ExtentServer, no_attr}
use distributed_system_lab.Extent.Server
use distributed_system_lab.Extent.Server.Contents.{IsConsistent, get-IsConsistent}
use distributed_system_lab.Extent.Client.{Moment, ExtentClient, call_get}

-- The content of an extent: that in the cache, or else that at the server.
abbrev pub cached_or : Option Bytes → Option Bytes → Option Bytes
cached_or none at_server = at_server
cached_or (some b) at_server = some b

unfoldable pub view : ExtentClient → ExtentServer → ℕ → Option Bytes
view c s id = cached_or (lookup id c.contents) (lookup id s.contents)

-- A content is cached with its attributes, and the server is consistent.
pub record IsCoherent (c : ExtentClient) (s : ExtentServer) : Type 0 where
  pub backed : (id : ℕ) → lookup id c.attributes ≡ none → lookup id c.contents ≡ none
  pub server : IsConsistent s

-- The server's get.
pub server_get-contents :
    (s : ExtentServer) (id : ℕ) (buf : Bytes) (now : ℕ)
    → (Server.get s id buf now).0.contents ≡ s.contents
unfolding Server.get
server_get-contents s id buf now = ground arith

pub call_get-contents :
    (m : Moment) (s : ExtentServer) (id : ℕ) (buf : Bytes)
    → (call_get m s id buf).0.contents ≡ s.contents
unfolding call_get
call_get-contents m s id buf = elim (Bool-cases m.up) [
  | inl e ↦ rw (e, call_get) (server_get-contents s id buf m.now)
  | inr e ↦ rw (e, call_get) refl
]

pub call_get-IsConsistent :
    (m : Moment) (s : ExtentServer) (id : ℕ) (buf : Bytes)
    → IsConsistent s
    → IsConsistent (call_get m s id buf).0
unfolding call_get
call_get-IsConsistent m s id buf h = elim (Bool-cases m.up) [
  | inl e ↦ rw (e, call_get) (get-IsConsistent s id buf m.now h)
  | inr e ↦ rw (e, call_get) h
]
