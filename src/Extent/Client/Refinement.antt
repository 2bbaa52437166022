-- ===== src/Extent/Client/Refinement.antt =====
-- That the extent client of extent_client.cc and the server together are one map of contents.
use distributed_system_lab.Base.{
  ℕ, ◌≡◌, ◌≢◌, refl, ap, subst, ◌∙◌, true, Option, none, some, List, [], ◌∷◌, if◌then◌else◌, nat_eq,
}
use distributed_system_lab.Base.Tests.{nat_key}
use distributed_system_lab.Base.Bytes.{Bytes}
use distributed_system_lab.Base.Map.{lookup}
use distributed_system_lab.Extent.{Attr}
use distributed_system_lab.Extent.Server.{ExtentServer}
use distributed_system_lab.Extent.Client.{Moment, ExtentClient, get, getattr, put, remove, flush}
use distributed_system_lab.Extent.Client.View.{Answers, get-Reads}
use distributed_system_lab.Extent.Client.Coherence.{view, IsCoherent}
use distributed_system_lab.Extent.Client.Writes.{getattr-view, put-view, flush-view, remove-view}

-- A client and the server.
pub record Session : Type 0 where
  pub client : ExtentClient
  pub server : ExtentServer

pub data Op : Type 0 where
  gets : (id : ℕ) (buf : Bytes) → Op
  getattrs : (id : ℕ) (attr : Attr) → Op
  puts : (id : ℕ) (buf : Bytes) → Op
  flushes : (id : ℕ) → Op
  removes_and_flushes : (id : ℕ) → Op

-- What an operation does to the client and the server.
unfoldable pub step : Moment → Session → Op → Session
step m x (gets id buf) =
    let (c, s, ret, b) = get m x.client x.server id buf in record { client = c; server = s }
step m x (getattrs id attr) = record x { client = (getattr m x.client x.server id attr).0 }
step m x (puts id buf) = record x { client = (put m x.client id buf).0 }
step m x (flushes id) =
    let (c, s, ret) = flush m x.client x.server id in record { client = c; server = s }
step m x (removes_and_flushes id) =
    let (c, s, ret) = flush m (remove x.client id).0 x.server id in
    record { client = c; server = s }

unfoldable pub run : Session → List (Moment × Op) → Session
unfolding step
run x [] = x
run x ((m, o) ∷ ops) = run (step m x o) ops

-- A flush is of an extent whose attributes are cached.
abbrev pub MayRun : Session → Op → Type 0
MayRun x (flushes id) = lookup id x.client.attributes ≢ none
MayRun x (gets id buf) = Unit
MayRun x (getattrs id attr) = Unit
MayRun x (puts id buf) = Unit
MayRun x (removes_and_flushes id) = Unit

unfoldable pub AllRun : Session → List (Moment × Op) → Type 0
unfolding step
AllRun x [] = Unit
AllRun x ((m, o) ∷ ops) = (m.up ≡ true) × MayRun x o × AllRun (step m x o) ops

-- What the operations do to one map.
abbrev pub spec_step : (ℕ → Option Bytes) → Op → ℕ → Option Bytes
spec_step f (puts id buf) j = if nat_eq id j then some buf else f j
spec_step f (removes_and_flushes id) j = if nat_eq id j then none else f j
spec_step f (gets id buf) j = f j
spec_step f (getattrs id attr) j = f j
spec_step f (flushes id) j = f j

unfoldable pub spec_run : (ℕ → Option Bytes) → List (Moment × Op) → ℕ → Option Bytes
spec_run f [] j = f j
spec_run f ((m, o) ∷ ops) j = spec_run (spec_step f o) ops j

abbrev pub view_of : Session → ℕ → Option Bytes
view_of x j = view x.client x.server j

step-view :
    (m : Moment) (x : Session) (o : Op)
    → m.up ≡ true
    → MayRun x o
    → IsCoherent x.client x.server
    → IsCoherent (step m x o).client (step m x o).server
      × ((j : ℕ) → view_of (step m x o) j ≡ spec_step (view_of x) o j)
unfolding step
step-view m x (gets id buf) u a h =
    let r = get-Reads m x.client x.server id buf h in (r.coherent, r.same)
step-view m x (getattrs id attr) u a h = getattr-view m x.client x.server id attr h
step-view m x (puts id buf) u a h = put-view m x.client x.server id buf h
step-view m x (flushes id) u a h =
    let (good, same, moved) = flush-view m x.client x.server id u a h in (good, same)
step-view m x (removes_and_flushes id) u a h = remove-view m x.client x.server id u h

spec_run-ext :
    (f g : ℕ → Option Bytes) (ops : List (Moment × Op)) (j : ℕ)
    → ((i : ℕ) → f i ≡ g i)
    → spec_run f ops j ≡ spec_run g ops j
unfolding spec_run
spec_run-ext f g [] j h = h j
spec_run-ext f g ((m, o) ∷ ops) j h = spec_run-ext (spec_step f o) (spec_step g o) ops j (same o)
  where
    same : (o : Op) (i : ℕ) → spec_step f o i ≡ spec_step g o i
    same (puts id buf) i = ap (λ (r : Option Bytes). if nat_eq id i then some buf else r) (h i)
    same (removes_and_flushes id) i =
        ap (λ (r : Option Bytes). if nat_eq id i then none else r) (h i)
    same (gets id buf) i = h i
    same (getattrs id attr) i = h i
    same (flushes id) i = h i

-- A client whose cache is coherent and the server, with any operations whose RPCs get through,
-- where a flush is of an extent whose attributes are cached and a removal is flushed at once: the
-- contents in the cache, or else at the server, become those of one map that a put writes, a
-- removal clears and no other operation changes; and a get answers what that map holds.
pub run-refines :
    (x : Session) (ops : List (Moment × Op)) (m : Moment) (id : ℕ) (buf : Bytes)
    → IsCoherent x.client x.server
    → AllRun x ops
    → m.up ≡ true
    → ((j : ℕ) → view_of (run x ops) j ≡ spec_run (view_of x) ops j)
      × Answers
          (spec_run (view_of x) ops id)
          (get m (run x ops).client (run x ops).server id buf).2
          (get m (run x ops).client (run x ops).server id buf).3
unfolding run AllRun
run-refines x [] m id buf h a u = (
  λ j. unfold spec_run in refl,
  unfold spec_run in (get-Reads m x.client x.server id buf h).answers u,
)
run-refines x ((n, o) ∷ ops) m id buf h (up, may, all) u =
    let (good, same) = step-view n x o up may h in
    let (views, reads) = run-refines (step n x o) ops m id buf good all u in
    let ext = λ (j : ℕ). spec_run-ext (view_of (step n x o)) (spec_step (view_of x) o) ops j same in
    finish views reads ext
  where
    finish :
        ((j : ℕ) → view_of (run (step n x o) ops) j ≡ spec_run (view_of (step n x o)) ops j)
        → Answers
            (spec_run (view_of (step n x o)) ops id)
            (get m (run (step n x o) ops).client (run (step n x o) ops).server id buf).2
            (get m (run (step n x o) ops).client (run (step n x o) ops).server id buf).3
        → ((j : ℕ)
            → spec_run (view_of (step n x o)) ops j ≡ spec_run (spec_step (view_of x) o) ops j)
        → ((j : ℕ) → view_of (run (step n x o) ops) j ≡ spec_run (view_of x) ((n, o) ∷ ops) j)
          × Answers
              (spec_run (view_of x) ((n, o) ∷ ops) id)
              (get m (run (step n x o) ops).client (run (step n x o) ops).server id buf).2
              (get m (run (step n x o) ops).client (run (step n x o) ops).server id buf).3
    finish views reads ext = (
      λ j. views j ∙ ext j ∙ unfold spec_run in refl,
      unfold spec_run in
          subst
            (λ (r : Option Bytes).
              Answers r (get m (run (step n x o) ops).client (run (step n x o) ops).server id buf).2
                (get m (run (step n x o) ops).client (run (step n x o) ops).server id buf).3)
            (ext id) reads,
    )
