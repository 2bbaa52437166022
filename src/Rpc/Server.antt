-- ===== src/Rpc/Server.antt =====
-- `class rpcs` of rpc/rpc.h and rpc/rpc.cc: how a request is dispatched, and the window of replies.
-- A handler runs with no lock held, so that a call of dispatch is modelled in two steps, before and
-- after the handler. Connections and statistics are left out.
pub mod Acked
pub mod Window
pub mod Check
pub mod Dispatch
use distributed_system_lab.Base.{
  ℕ, Bool, true, false, not, ◌&&◌, ◌||◌, Option, none, some, List, [], ◌∷◌, ◌++◌, ltb, nat_eq,
  if◌then◌else◌,
}
use distributed_system_lab.Base.Tests.{nat_key}
use distributed_system_lab.Base.Bytes.{Bytes}
use distributed_system_lab.Base.Map.{Map, lookup, insert, or_else}

-- reply_t; `buf` is empty until the reply is there.
pub record Reply : Type 0 where
  pub xid : ℕ
  pub cb_present : Bool
  pub buf : Bytes

unfoldable pub reply_t : ℕ → Reply
reply_t xid = record { xid = xid; cb_present = false; buf = [] }

-- rpcstate_t; DONE comes with the reply.
pub data RpcState : Type 0 where
  new : RpcState
  inprogress : RpcState
  done : Bytes → RpcState
  forgotten : RpcState

-- The replies from the first one on that the client may still ask for.
unfoldable pub drop_acked : ℕ → List Reply → List Reply
drop_acked xid_rep [] = []
drop_acked xid_rep (x ∷ w) =
    let rest = drop_acked xid_rep w in if ltb x.xid xid_rep then rest else x ∷ w

-- front().xid and back().xid
abbrev pub front : List Reply → Option ℕ
front [] = none
front (x ∷ w) = some x.xid

unfoldable pub back : List Reply → Option ℕ
back [] = none
back (x ∷ []) = some x.xid
back (x ∷ y ∷ w) = back (y ∷ w)

-- The search from the front, for a number that is not above the last one: so that it ends before
-- the end of the list.
unfoldable pub seek : ℕ → List Reply → RpcState × List Reply
unfolding reply_t
seek xid [] = (new, reply_t xid ∷ [])
seek xid (x ∷ w) =
    let (state, rest) = seek xid w in
    if ltb x.xid xid
    then (state, x ∷ rest)
    else if nat_eq x.xid xid
    then (if x.cb_present then done x.buf else inprogress, x ∷ w)
    else (new, reply_t xid ∷ x ∷ w)

-- checkduplicate_and_update on the window of the client, once the acknowledged replies are gone.
unfoldable pub settle : ℕ → List Reply → RpcState × List Reply
unfolding back seek reply_t
settle xid w = elim (back w) [
  | none ↦ (new, w ++ reply_t xid ∷ [])
  | some last ↦ if ltb last xid then (new, w ++ reply_t xid ∷ []) else elim (front w) [
    | none ↦ seek xid w
    | some first ↦ if ltb xid first then (forgotten, w) else seek xid w
  ]
]

unfoldable pub check_window : List Reply → ℕ → ℕ → RpcState × List Reply
unfolding drop_acked settle
check_window w xid xid_rep = settle xid (drop_acked xid_rep w)

-- add_reply on the window of the client; `none` where the request is not in it: the reply is then
-- written through the end of the list.
unfoldable pub store_reply : ℕ → Bytes → List Reply → Option (List Reply)
store_reply xid buf [] = none
store_reply xid buf (x ∷ w) =
    let rest = store_reply xid buf w in
    if nat_eq x.xid xid
    then some (record x { cb_present = true; buf = buf } ∷ w)
    else elim rest [ none ↦ none | some v ↦ some (x ∷ v) ]

pub record Rpcs : Type 0 where
  pub nonce : ℕ
  pub reachable : Bool
  pub reply_window : Map ℕ (List Reply)

-- req_header of rpc/marshall.h
pub record ReqHeader : Type 0 where
  pub xid : ℕ
  pub proc : ℕ
  pub clt_nonce : ℕ
  pub srv_nonce : ℕ
  pub xid_rep : ℕ

unfoldable pub checkduplicate_and_update : Rpcs → ℕ → ℕ → ℕ → Rpcs × RpcState
unfolding check_window
checkduplicate_and_update s clt_nonce xid xid_rep =
    let (state, w) = check_window (or_else (lookup clt_nonce s.reply_window) []) xid xid_rep in
    (record s { reply_window = insert clt_nonce w s.reply_window }, state)

unfoldable pub add_reply : Rpcs → ℕ → ℕ → Bytes → Option Rpcs
unfolding store_reply
add_reply s clt_nonce xid buf =
    elim (store_reply xid buf (or_else (lookup clt_nonce s.reply_window) [])) [
      | none ↦ none
      | some w ↦ some (record s { reply_window = insert clt_nonce w s.reply_window })
    ]

-- What dispatch does with a request. `aborts` is a failed VERIFY.
pub data Dispatched : Type 0 where
  dropped : Dispatched
  oldsrv_failure : Dispatched
  aborts : Dispatched
  executes : Dispatched
  waits : Dispatched
  resends : Bytes → Dispatched
  atmostonce_failure : Dispatched

abbrev pub of_state : RpcState → Dispatched
of_state new = executes
of_state inprogress = waits
of_state (done buf) = resends buf
of_state forgotten = atmostonce_failure

-- got_pdu and the start of dispatch; `known` says which procedures are registered.
unfoldable pub dispatch : Rpcs → (ℕ → Bool) → ReqHeader → Rpcs × Dispatched
unfolding checkduplicate_and_update
dispatch s known h =
    if not s.reachable
    then (s, dropped)
    else if not (nat_eq h.srv_nonce 0) && not (nat_eq h.srv_nonce s.nonce)
    then (s, oldsrv_failure)
    else if not (known h.proc)
    then (s, aborts)
    else if nat_eq h.clt_nonce 0
    then (s, executes)
    else (let (s', state) = checkduplicate_and_update s h.clt_nonce h.xid h.xid_rep in
        (s', of_state state))

-- The end of dispatch, when the handler has returned.
unfoldable pub dispatch_reply : Rpcs → ReqHeader → Bytes → Option Rpcs
unfolding add_reply
dispatch_reply s h buf = if nat_eq h.clt_nonce 0 then some s else add_reply s h.clt_nonce h.xid buf

unfoldable pub free_reply_window : Rpcs → Rpcs
free_reply_window s = record s { reply_window = [] }

unfoldable pub rpcbind : Rpcs → ℕ
rpcbind s = s.nonce
