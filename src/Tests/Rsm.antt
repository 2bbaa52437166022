-- ===== src/Tests/Rsm.antt =====
-- Two replicas of a counter behind rsm.cc, in a view of which both are members.
use distributed_system_lab.Base.{
  ℕ, ◌+◌, ◌≡◌, refl, ◌≢◌, Bool, true, false, Option, none, some, [], ◌∷◌, arith, ◌==◌,
  if◌then◌else◌, nat_eq, length,
}
use distributed_system_lab.Base.Bytes.{Bytes, bytes, bytes_eq, bytes_key}
use distributed_system_lab.Paxos.Members.{isamember}
use distributed_system_lab.Rsm.StateTransfer.{Machine}
use distributed_system_lab.Rsm.{
  ok, err, busy, notprimary, Rsm, Views, Status, Backups, vs_eq, breakpoint1, amiprimary,
  partition1, execute, invoke_one, invoke_all, ask_each, client_invoke, invoke, transferreq,
  statetransfer,
}
use distributed_system_lab.Rsm.Cluster.{
  Cluster, here, next, transfers, transfer, state_never_transferred,
}
use distributed_system_lab.Rsm.Replicas.{replicas_agree, stamp_taken_twice}

-- Procedure 1 adds the length of its argument.
unfoldable counter_procedure : ℕ → Bytes → ℕ → Option (ℕ × Bytes)
counter_procedure p req n = if nat_eq p 1 then some (n + length req, req) else none

abbrev read_count : Bytes → ℕ → ℕ
read_count [] n = n
read_count (x ∷ rest) n = x

abbrev counter : Machine ℕ
counter = record {
  procedure = counter_procedure;
  marshal_state = λ n. n ∷ [];
  unmarshal_state = read_count;
}

abbrev one : Bytes
one = bytes "3001"

abbrev two : Bytes
two = bytes "3002"

-- Views 1 and 2 are those of the first node and of both; in view 3 the first one has left.
abbrev views : Views
views vid =
    if nat_eq vid 1
    then one ∷ []
    else if nat_eq vid 2
    then one ∷ two ∷ []
    else if nat_eq vid 3
    then two ∷ []
    else []

abbrev serving : Bytes → ℕ → Rsm ℕ
serving me n = record {
  me = me;
  primary = one;
  insync = false;
  inviewchange = false;
  vid_commit = 2;
  vid_insync = 2;
  partitioned = false;
  dopartition = false;
  break1 = false;
  break2 = false;
  last_myvs = record { vid = 0; seqno = 0 };
  myvs = record { vid = 2; seqno = 1 };
  backups = [];
  has_stf = true;
  state = n;
}

-- The primary's request is carried out by the backup.
backup_serves :
    invoke counter (serving two 5) 1 (record { vid = 2; seqno = 1 }) (bytes "abc")
    ≡ some (serving two 8, ok)
unfolding invoke amiprimary breakpoint1 execute counter_procedure bytes_eq vs_eq
backup_serves = refl

two_member : isamember two (views 2) ≡ true
unfolding isamember bytes_eq
two_member = refl

two_other : two ≢ one
two_other e = absurd (ground arith)

-- The second node answers what its handler returns.
unfoldable accepted : Option (Rsm ℕ × Status) → Bool
accepted none = false
accepted (some (b, ok)) = true
accepted (some (b, err)) = false
accepted (some (b, notprimary)) = false
accepted (some (b, busy)) = false

accepted_ok :
    (x : Option (Rsm ℕ × Status)) → some (accepted x) ≡ some true → (b : Rsm ℕ) × (x ≡ some (b, ok))
unfolding accepted
accepted_ok none e = absurd (ground arith)
accepted_ok (some (b, ok)) e = (b, refl)
accepted_ok (some (b, err)) e = absurd (ground arith)
accepted_ok (some (b, notprimary)) e = absurd (ground arith)
accepted_ok (some (b, busy)) e = absurd (ground arith)

abbrev second : Backups
second m p vs req = some (accepted (invoke counter (serving two 5) p vs req))

second_serves :
    client_invoke counter views second (serving one 5) 1 (bytes "abc")
    ≡ some (serving one 8, ok, bytes "abc")
unfolding client_invoke amiprimary invoke_all invoke_one ask_each breakpoint1 partition1 execute
    counter_procedure bytes_eq invoke vs_eq accepted
second_serves = refl

replicas_agree_example :
    (b : Rsm ℕ) × (invoke counter (serving two 5) 1 (record { vid = 2; seqno = 1 }) (bytes "abc")
      ≡ some (b, ok))
    × (vs_eq (record { vid = 2; seqno = 1 }) (record { vid = 2; seqno = 1 }) ≡ true)
    × (b.state ≡ 8)
replicas_agree_example =
    replicas_agree counter views second (serving one 5) (serving one 8) 1 (bytes "abc")
      (bytes "abc") (serving two 5) second_serves two_member two_other refl
      (λ p vs req. accepted_ok (invoke counter (serving two 5) p vs req))

primary_refuses :
    client_invoke counter views (λ m p vs req. some false) (serving one 5) 1 (bytes "abc")
    ≡ some (serving one 5, busy, [])
unfolding client_invoke amiprimary invoke_all invoke_one ask_each breakpoint1 partition1 bytes_eq
primary_refuses = refl

again : execute counter (serving two 8) 1 (bytes "x") ≡ some (serving two 9, bytes "x")
unfolding execute counter_procedure
again = refl

stamp_taken_twice_example :
    invoke counter (serving two 8) 1 (record { vid = 2; seqno = 1 }) (bytes "x")
    ≡ some (serving two 9, ok)
stamp_taken_twice_example =
    stamp_taken_twice counter (serving two 5) (serving two 8) (serving two 9) 1 1
      (record { vid = 2; seqno = 1 }) (bytes "abc") (bytes "x") (bytes "x") backup_serves again

-- The second node after the first one has left: it is the primary of view 3, and not serving yet.
abbrev alone : Bytes → Rsm ℕ
alone me = record (serving me 5) { vid_commit = 3; inviewchange = true; primary = two }

-- A primary in state 5 that is in sync for view 2, and a node that has just joined in state 0.
abbrev nodes : Cluster counter
nodes a =
    if a == one
    then record (serving one 5) { insync = true }
    else record (serving a 0) { inviewchange = true }

abbrev asked : Cluster counter
asked =
    transfer counter nodes one two (record { state = []; last = record { vid = 0; seqno = 0 } })
      false

nodes-last : (a : Bytes) → (nodes a).last_myvs ≡ record { vid = 0; seqno = 0 }
nodes-last a = ground arith

-- The node that has joined is still in state 0 after the transfer.
state_never_transferred_example :
    ((transferreq counter
        (asked one)
        (asked two).last_myvs
        2
        (record { state = []; last = record { vid = 0; seqno = 0 } })).1.state
      ≡ [])
    × ((statetransfer counter (asked two) (
          some (
            transferreq counter
              (asked one)
              (asked two).last_myvs
              2
              (record { state = []; last = record { vid = 0; seqno = 0 } })))).0.state
        ≡ (asked two).state)
state_never_transferred_example =
    state_never_transferred counter nodes asked nodes-last
      (next here (
        transfers one two (record { state = []; last = record { vid = 0; seqno = 0 } }) false refl))
      one two 2 (record { state = []; last = record { vid = 0; seqno = 0 } })
