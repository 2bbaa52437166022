-- ===== src/Extent/Server/Contents.antt =====
-- What the extent server of extent_server.cc holds after any calls.
use distributed_system_lab.Base.{
  ℕ, ◌%◌, ◌^◌, ◌≡◌, refl, subst, ◌∙◌, inl, inr, Bool, false, Option, none, some, List, [], ◌∷◌,
  length, arith, nat_eq, Bool-cases, Option-cases, All,
}
use distributed_system_lab.Base.Tests.{nat_key}
use distributed_system_lab.Base.Bytes.{Bytes}
use distributed_system_lab.Base.Map.{lookup, insert, or_else, lookup-insert, lookup-erase}
use distributed_system_lab.Extent.{Attr, ok, ioerr}
use distributed_system_lab.Extent.Server.{ExtentServer, no_attr, put, get, remove}

pub data Call : Type 0 where
  puts : (id : ℕ) (buf : Bytes) (now atime : ℕ) → Call
  gets : (id : ℕ) (buf : Bytes) (now : ℕ) → Call
  removes : (id : ℕ) → Call

unfoldable pub call : ExtentServer → Call → ExtentServer
call s (puts id buf now atime) = (put s id buf now atime).0
call s (gets id buf now) = (get s id buf now).0
call s (removes id) = (remove s id).0

unfoldable pub run : ExtentServer → List Call → ExtentServer
run s [] = s
run s (c ∷ cs) = run (call s c) cs

-- The content and the attributes of an extent agree: both are there or neither is, and the size is
-- that of the content.
unfoldable pub Agree : Option Bytes → Option Attr → Type 0
Agree none none = Unit
Agree none (some a) = ⊥
Agree (some b) none = ⊥
Agree (some b) (some a) = a.size ≡ length b % 2 ^ 32

abbrev pub IsConsistent : ExtentServer → Type 0
IsConsistent s = (id : ℕ) → Agree (lookup id s.contents) (lookup id s.attributes)

pub put-IsConsistent :
    (s : ExtentServer) (id : ℕ) (buf : Bytes) (now atime : ℕ)
    → IsConsistent s
    → IsConsistent (put s id buf now atime).0
unfolding put Agree
put-IsConsistent s id buf now atime h j =
    let a : Attr = record {
      atime = atime;
      mtime = now % 2 ^ 32;
      ctime = now % 2 ^ 32;
      size = length buf % 2 ^ 32;
    } in
    rw (lookup-insert id j buf s.contents) (
      rw (lookup-insert id j a s.attributes)
        (elim (Bool-cases (nat_eq id j)) [ inl e ↦ rw e refl | inr e ↦ rw e (h j) ]))

pub get-IsConsistent :
    (s : ExtentServer) (id : ℕ) (buf : Bytes) (now : ℕ)
    → IsConsistent s
    → IsConsistent (get s id buf now).0
unfolding get
get-IsConsistent s id buf now h j = elim (Option-cases (lookup id s.contents)) [
  | inl e ↦ rw (e, get) (h j)
  | inr (b, e) ↦ rw (e, get) (touched b e)
]
  where
    a : Attr
    a = or_else (lookup id s.attributes) no_attr

    touch : Attr
    touch = record a { atime = now % 2 ^ 32 }

    sized :
        (x : Option Attr) (b : Bytes)
        → Agree (some b) x
        → Agree (some b) (some (record (or_else x no_attr) { atime = now % 2 ^ 32 }))
    sized none b g = absurd (unfold Agree in g)
    sized (some x) b g = unfold Agree in g

    touched :
        (b : Bytes)
        → lookup id s.contents ≡ some b
        → Agree (lookup j s.contents) (lookup j (insert id touch s.attributes))
    touched b e = rw (lookup-insert id j touch s.attributes) (elim (Bool-cases (nat_eq id j)) [
      | inl f ↦
          let same : id ≡ j = ground arith in
          let here : lookup j s.contents ≡ some b =
            subst (λ (i : ℕ). lookup i s.contents ≡ some b) same e in
          rw f (
            rw here (
              sized (lookup id s.attributes) b
                (subst (λ (x : Option Bytes). Agree x (lookup id s.attributes)) e (h id))))
      | inr f ↦ rw f (h j)
    ])

pub remove-IsConsistent :
    (s : ExtentServer) (id : ℕ) → IsConsistent s → IsConsistent (remove s id).0
unfolding remove
remove-IsConsistent s id h j = elim (Option-cases (lookup id s.contents)) [
  | inl e ↦ rw (e, remove) (h j)
  | inr (b, e) ↦
      rw (e, remove)
        (rw (lookup-erase id j s.contents) (
          rw (lookup-erase id j s.attributes) (elim (Bool-cases (nat_eq id j)) [
            | inl f ↦ rw f (unfold Agree in tt)
            | inr f ↦ rw f (h j)
          ])))
]

call-IsConsistent : (s : ExtentServer) (c : Call) → IsConsistent s → IsConsistent (call s c)
unfolding call
call-IsConsistent s (puts id buf now atime) h = put-IsConsistent s id buf now atime h
call-IsConsistent s (gets id buf now) h = get-IsConsistent s id buf now h
call-IsConsistent s (removes id) h = remove-IsConsistent s id h

-- The content and the attributes of every extent agree after any calls: both are there or neither
-- is, and the size is that of the content.
pub run-IsConsistent :
    (s : ExtentServer) (cs : List Call) → IsConsistent s → IsConsistent (run s cs)
unfolding run
run-IsConsistent s [] h = h
run-IsConsistent s (c ∷ cs) h = run-IsConsistent (call s c) cs (call-IsConsistent s c h)

-- Whether a call writes or removes an extent.
unfoldable pub writes : ℕ → Call → Bool
writes id (puts j buf now atime) = nat_eq j id
writes id (gets j buf now) = false
writes id (removes j) = nat_eq j id

call-content :
    (s : ExtentServer) (c : Call) (id : ℕ)
    → writes id c ≡ false
    → lookup id (call s c).contents ≡ lookup id s.contents
unfolding call writes put get remove
call-content s (puts j buf now atime) id h = ground (arith, lookup-insert j id buf s.contents)
call-content s (gets j buf now) id h = ground arith
call-content s (removes j) id h = ground (arith, lookup-erase j id s.contents)

run-content :
    (s : ExtentServer) (cs : List Call) (id : ℕ)
    → All (λ c. writes id c ≡ false) cs
    → lookup id (run s cs).contents ≡ lookup id s.contents
unfolding run
run-content s [] id h = refl
run-content s (c ∷ cs) id (h, hs) = run-content (call s c) cs id hs ∙ call-content s c id h

-- An extent that was put is read back with the same content, after any calls that do not put or
-- remove it; and one that was removed cannot be read.
pub get-put :
    (s : ExtentServer) (id : ℕ) (buf : Bytes) (now atime : ℕ) (cs : List Call) (old : Bytes)
    (later : ℕ)
    → All (λ c. writes id c ≡ false) cs
    → ((get (run (put s id buf now atime).0 cs) id old later).1 ≡ ok)
      × ((get (run (put s id buf now atime).0 cs) id old later).2 ≡ buf)
      × ((get (run (remove s id).0 cs) id old later).1 ≡ ioerr)
unfolding get put remove
get-put s id buf now atime cs old later h =
    let kept = run-content (put s id buf now atime).0 cs id h in
    let gone = run-content (remove s id).0 cs id h in
    let written = lookup-insert id id buf s.contents in
    let erased = lookup-erase id id s.contents in
    (ground (arith, kept, written), ground (arith, kept, written), ground (arith, gone, erased))
