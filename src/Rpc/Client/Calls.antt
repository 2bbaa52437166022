-- ===== src/Rpc/Client/Calls.antt =====
-- What a call of rpc.cc returns, whatever the other threads of the client do while it waits.
use distributed_system_lab.Base.{
  ℕ, ◌≡◌, ◌≢◌, refl, sym, ap, ◌∙◌, ◌⊎◌, inl, inr, Bool, true, false, some, List, [], ◌∷◌, nat_eq,
  arith, Bool-cases, Option-cases,
}
use distributed_system_lab.Base.Tests.{nat_key}
use distributed_system_lab.Base.Bytes.{Bytes}
use distributed_system_lab.Base.Map.{lookup, lookup-insert, lookup-insert_self, lookup-erase}
use distributed_system_lab.Rpc.Server.{ReqHeader}
use distributed_system_lab.Rpc.Client.{
  ret, timeout_failure, Caller, Rpcc, sends, begin_call, end_call, got_pdu, returned,
}

-- What the threads of a client do: a call begins, a reply comes, a call ends.
pub data Event : Type 0 where
  begins : ℕ → Event
  got : ℕ → ℕ → Bytes → Event
  ends : ℕ → Event

unfoldable pub step : Rpcc → Event → Rpcc
step s (begins proc) = (begin_call s proc).0
step s (got xid r buf) = got_pdu s xid r buf
step s (ends xid) = (end_call s xid).0

unfoldable pub run : Rpcc → List Event → Rpcc
unfolding step
run s [] = s
run s (e ∷ es) = run (step s e) es

-- The number of the call that an event is about.
abbrev pub number : Rpcc → Event → ℕ
number s (begins proc) = s.xid
number s (got xid r buf) = xid
number s (ends xid) = xid

abbrev pub is_reply : Event → Bool
is_reply (begins proc) = false
is_reply (got xid r buf) = true
is_reply (ends xid) = false

-- No event is about the call with this number.
unfoldable pub Others : ℕ → Rpcc → List Event → Type 0
unfolding step
Others xid s [] = Unit
Others xid s (e ∷ es) = (number s e ≢ xid) × Others xid (step s e) es

-- None is, but for replies to it.
unfoldable pub OthersOrReplies : ℕ → Rpcc → List Event → Type 0
unfolding step
OthersOrReplies xid s [] = Unit
OthersOrReplies xid s (e ∷ es) =
    ((number s e ≢ xid) ⊎ (is_reply e ≡ true)) × OthersOrReplies xid (step s e) es

step-lookup :
    (xid : ℕ) (s : Rpcc) (e : Event)
    → number s e ≢ xid
    → lookup xid (step s e).calls ≡ lookup xid s.calls
unfolding step
step-lookup xid s (begins proc) h =
    unfold begin_call in
    ground
      (arith, lookup-insert s.xid xid (record { done = false; intret = ret 0; un = [] }) s.calls)
step-lookup xid s (ends x) h = unfold end_call in ground (arith, lookup-erase x xid s.calls)
step-lookup xid s (got x r buf) h = elim (Option-cases (lookup x s.calls)) [
  | inl k ↦ unfold got_pdu in rw (k, got_pdu) refl
  | inr (ca, k) ↦ elim (Bool-cases ca.done) [
    | inl j ↦ unfold got_pdu in rw (k, got_pdu) (rw j refl)
    | inr j ↦
        unfold got_pdu in
        rw (k, got_pdu)
          (rw j (
            ground (
              arith,
              lookup-insert x xid (record { done = true; intret = ret r; un = buf }) s.calls,
            )))
  ]
]

run-lookup :
    (xid : ℕ) (s : Rpcc) (es : List Event)
    → Others xid s es
    → lookup xid (run s es).calls ≡ lookup xid s.calls
unfolding run Others
run-lookup xid s [] h = refl
run-lookup xid s (e ∷ es) (a, b) = run-lookup xid (step s e) es b ∙ step-lookup xid s e a

-- A call that has its reply keeps it.
late-lookup :
    (s : Rpcc) (x r : ℕ) (buf : Bytes) (ca : Caller)
    → lookup x s.calls ≡ some ca
    → ca.done ≡ true
    → lookup x (got_pdu s x r buf).calls ≡ some ca
late-lookup s x r buf ca k j = unfold got_pdu in ground (arith, k, j)

step-done :
    (xid : ℕ) (s : Rpcc) (e : Event) (ca : Caller)
    → (number s e ≢ xid) ⊎ (is_reply e ≡ true)
    → lookup xid s.calls ≡ some ca
    → ca.done ≡ true
    → lookup xid (step s e).calls ≡ some ca
step-done xid s e ca (inl h) k j = step-lookup xid s e h ∙ k
step-done xid s (begins proc) ca (inr h) k j = absurd (ground arith)
step-done xid s (ends x) ca (inr h) k j = absurd (ground arith)
step-done xid s (got x r buf) ca (inr h) k j = elim (Bool-cases (nat_eq x xid)) [
  | inr n ↦ step-lookup xid s (got x r buf) (ground arith) ∙ k
  | inl y ↦
      (let same : x ≡ xid = ground arith in
        unfold step in
        ap (λ (i : ℕ). lookup i (got_pdu s x r buf).calls) (sym same)
        ∙ late-lookup s x r buf ca (ap (λ (i : ℕ). lookup i s.calls) same ∙ k) j)
]

run-done :
    (xid : ℕ) (s : Rpcc) (es : List Event) (ca : Caller)
    → OthersOrReplies xid s es
    → lookup xid s.calls ≡ some ca
    → ca.done ≡ true
    → lookup xid (run s es).calls ≡ some ca
unfolding run OthersOrReplies
run-done xid s [] ca h k j = k
run-done xid s (e ∷ es) ca (a, b) k j =
    run-done xid (step s e) es ca b (step-done xid s e ca a k j) j

begin_call-lookup :
    (s t : Rpcc) (proc : ℕ) (h : ReqHeader)
    → begin_call s proc ≡ (t, sends h)
    → lookup h.xid t.calls ≡ some (record { done = false; intret = ret 0; un = [] })
begin_call-lookup s t proc h e =
    unfold begin_call in
    ground
      (arith, lookup-insert_self s.xid (record { done = false; intret = ret 0; un = [] }) s.calls)

got_pdu-lookup :
    (s : Rpcc) (x r : ℕ) (buf : Bytes) (ca : Caller)
    → lookup x s.calls ≡ some ca
    → ca.done ≡ false
    → lookup x (got_pdu s x r buf).calls ≡ some (record { done = true; intret = ret r; un = buf })
got_pdu-lookup s x r buf ca k j =
    unfold got_pdu in
    rw (k, got_pdu)
      (rw j (lookup-insert_self x (record { done = true; intret = ret r; un = buf }) s.calls))

-- After a call has begun and other calls have begun, had replies and ended, it returns the first
-- reply to it, whatever replies to it come later; and it fails with a timeout when no reply to it
-- has come.
pub call-first_reply :
    (s t : Rpcc) (proc : ℕ) (h : ReqHeader) (before after : List Event) (r : ℕ) (buf : Bytes)
    → begin_call s proc ≡ (t, sends h)
    → Others h.xid t before
    → OthersOrReplies h.xid (got_pdu (run t before) h.xid r buf) after
    → ((end_call (run (got_pdu (run t before) h.xid r buf) after) h.xid).1 ≡ (ret r, buf))
      × ((end_call (run t before) h.xid).1 ≡ (timeout_failure, []))
call-first_reply s t proc h before after r buf e o late =
    unfold end_call in
    (
      ap returned (
          run-done h.xid _ after (record { done = true; intret = ret r; un = buf }) late replied
            refl),
      ap returned waits,
    )
  where
    waits :
        lookup h.xid (run t before).calls ≡ some (record { done = false; intret = ret 0; un = [] })
    waits = run-lookup h.xid t before o ∙ begin_call-lookup s t proc h e

    replied :
        lookup h.xid (got_pdu (run t before) h.xid r buf).calls
        ≡ some (record { done = true; intret = ret r; un = buf })
    replied =
        got_pdu-lookup (run t before) h.xid r buf (record { done = false; intret = ret 0; un = [] })
          waits refl
