-- ===== src/Rpc/Client.antt =====
-- `class rpcc` of rpc/rpc.h and rpc/rpc.cc: the numbers of the requests, the calls that wait, and
-- the window of the replies that the client has had. A call is modelled in two steps, up to the
-- wait and after it, as other threads run in between; a header that is sent may be sent again.
-- Connections, deadlines and the duplicates of RPC_LOSSY are left out.
pub mod Compress
pub mod Window
pub mod Calls
use distributed_system_lab.Base.{
  ℕ, zero, suc, ◌+◌, ◌%◌, ◌≤◌, ◌≡◌, Bool, true, false, not, ◌&&◌, ◌||◌, Option, none, some, List,
  [], ◌∷◌, ◌++◌, leb, ltb, nat_eq, if◌then◌else◌,
}
use distributed_system_lab.Base.Tests.{nat_key}
use distributed_system_lab.Base.Bytes.{Bytes}
use distributed_system_lab.Base.Map.{Map, lookup, insert, erase}
use distributed_system_lab.Rpc.Server.{ReqHeader}

-- The negative values that call1 returns by itself, next to those of the server.
pub data CallRet : Type 0 where
  ret : ℕ → CallRet
  timeout_failure : CallRet
  bind_failure : CallRet
  cancel_failure : CallRet

pub record Caller : Type 0 where
  pub done : Bool
  pub intret : CallRet
  pub un : Bytes

pub record Rpcc : Type 0 where
  pub clt_nonce : ℕ
  pub srv_nonce : ℕ
  pub bind_done : Bool
  pub destroy_wait : Bool
  pub xid : ℕ
  pub calls : Map ℕ Caller
  pub xid_rep_window : List ℕ

-- The constructor, with the number that random() gives.
unfoldable pub rpcc : Bool → ℕ → Rpcc
rpcc retrans random = record {
  clt_nonce = if retrans then random else 0;
  srv_nonce = 0;
  bind_done = false;
  destroy_wait = false;
  xid = 1;
  calls = [];
  xid_rep_window = 0 ∷ [];
}

-- xid_rep_window_.front(); the window is never empty.
abbrev pub front : List ℕ → ℕ
front [] = 0
front (x ∷ w) = x

-- An unsigned int.
abbrev pub wrap : ℕ → ℕ
wrap n = n % 4294967296

-- The insertion before the first larger number.
unfoldable pub place : ℕ → List ℕ → List ℕ
place xid [] = xid ∷ []
place xid (x ∷ w) = if ltb xid x then xid ∷ x ∷ w else x ∷ place xid w

-- The numbers before the iterator, once those at the front that lead up to `v` are popped.
unfoldable pub pop : ℕ → List ℕ → List ℕ
pop v [] = []
pop v (x ∷ passed) = let rest = pop v passed in if nat_eq (wrap (x + 1)) v then rest else x ∷ passed

-- The loop at compress, with the numbers before the iterator and those from it on.
unfoldable pub compress : List ℕ → List ℕ → List ℕ
unfolding pop
compress passed [] = passed
compress passed (v ∷ w) = compress (pop v passed ++ v ∷ []) w

abbrev pub squeeze : List ℕ → List ℕ
squeeze [] = []
squeeze (x ∷ w) = compress (x ∷ []) w

unfoldable pub update_xid_rep : ℕ → List ℕ → List ℕ
unfolding place compress
update_xid_rep xid w = if leb xid (front w) then w else squeeze (place xid w)

pub data Begun : Type 0 where
  fails : CallRet → Begun
  sends : ReqHeader → Begun

-- call1 up to the wait; procedure 1 is rpc_const::bind.
unfoldable pub begin_call : Rpcc → ℕ → Rpcc × Begun
begin_call s proc =
    if (not (nat_eq proc 1) && not s.bind_done) || (nat_eq proc 1 && s.bind_done)
    then (s, fails bind_failure)
    else if s.destroy_wait
    then (s, fails cancel_failure)
    else (
      record s {
        xid = wrap (s.xid + 1);
        calls = insert s.xid (record { done = false; intret = ret 0; un = [] }) s.calls;
      },
      sends (record {
        xid = s.xid;
        proc = proc;
        clt_nonce = s.clt_nonce;
        srv_nonce = s.srv_nonce;
        xid_rep = front s.xid_rep_window;
      }),
    )

-- What the caller returns, and what it has unmarshalled.
abbrev pub returned : Option Caller → CallRet × Bytes
returned none = (timeout_failure, [])
returned (some ca) = if ca.done then (ca.intret, ca.un) else (timeout_failure, [])

-- call1 from the wait on: a reply has come or the time is up.
unfoldable pub end_call : Rpcc → ℕ → Rpcc × (CallRet × Bytes)
unfolding update_xid_rep
end_call s xid = (
  record s { calls = erase xid s.calls; xid_rep_window = update_xid_rep xid s.xid_rep_window },
  returned (lookup xid s.calls),
)

-- got_pdu of the client, with the number, the result and the rest of the reply.
unfoldable pub got_pdu : Rpcc → ℕ → ℕ → Bytes → Rpcc
unfolding update_xid_rep
got_pdu s xid r buf =
    let w = update_xid_rep xid s.xid_rep_window in
    elim (lookup xid s.calls) [
      | none ↦ record s { xid_rep_window = w }
      | some ca ↦ if ca.done then record s { xid_rep_window = w } else record s {
        calls = insert xid (record { done = true; intret = ret r; un = buf }) s.calls;
        xid_rep_window = w;
      }
    ]

-- bind after its call, with what the call has returned.
unfoldable pub bind : Rpcc → CallRet → ℕ → Rpcc
bind s (ret zero) r = record s { bind_done = true; srv_nonce = r }
bind s (ret (suc n)) r = s
bind s timeout_failure r = s
bind s bind_failure r = s
bind s cancel_failure r = s

-- cancel: every call that waits fails.
unfoldable pub cancel_all : Map ℕ Caller → Map ℕ Caller
cancel_all [] = []
cancel_all ((x, ca) ∷ m) = (x, record ca { done = true; intret = cancel_failure }) ∷ cancel_all m

abbrev pub is_empty_map : Map ℕ Caller → Bool
is_empty_map [] = true
is_empty_map (x ∷ m) = false

unfoldable pub cancel : Rpcc → Rpcc
unfolding cancel_all
cancel s = record s {
  calls = cancel_all s.calls;
  destroy_wait = if is_empty_map s.calls then s.destroy_wait else true;
}
