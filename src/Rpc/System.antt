-- ===== src/Rpc/System.antt =====
-- One client of rpc.cc and the server, as the steps of the threads of both in any order. A header
-- that was sent arrives any number of times, late, or never; the server also serves others.
pub mod Requests
pub mod Invariant
pub mod Once
pub mod Replies
use distributed_system_lab.Base.{
  ℕ, ◌+◌, ◌<◌, ◌≡◌, ◌≢◌, Bool, true, false, Option, none, some, List, [], ◌∷◌, nat_eq,
  if◌then◌else◌, In, map,
}
use distributed_system_lab.Base.Tests.{nat_key}
use distributed_system_lab.Base.Map.{lookup}
use distributed_system_lab.Base.Bytes.{Bytes}
use distributed_system_lab.Rpc.Client.{Rpcc, Begun, sends, begin_call, end_call, got_pdu}
use distributed_system_lab.Rpc.Server.{
  Rpcs, ReqHeader, RpcState, Dispatched, dropped, oldsrv_failure, aborts, executes, waits, resends,
  atmostonce_failure, dispatch, dispatch_reply,
}

-- `sent` is the headers that the client has sent, `executed` the numbers of its requests whose
-- handler was called, and `replies` what those handlers have replied.
pub record Net : Type 0 where
  pub client : Rpcc
  pub server : Rpcs
  pub sent : List ReqHeader
  pub executed : List ℕ
  pub replies : List (ℕ × Bytes)

abbrev pub noted : Dispatched → ℕ → List ℕ → List ℕ
noted executes xid l = xid ∷ l
noted dropped xid l = l
noted oldsrv_failure xid l = l
noted aborts xid l = l
noted waits xid l = l
noted (resends buf) xid l = l
noted atmostonce_failure xid l = l

-- A header of the client arrives.
unfoldable pub arrive : Net → (ℕ → Bool) → ReqHeader → Net
unfolding dispatch
arrive s known h =
    let (server, d) = dispatch s.server known h in
    record s { server = server; executed = noted d h.xid s.executed }

module _ (known : ℕ → Bool) where
  -- `calls` is call1 up to the wait, while the numbers have not wrapped; `arrives` is got_pdu and
  -- dispatch up to the handler, `finishes` the rest; `hears` is got_pdu of the client and
  -- `ends` the end of call1, which may be a timeout; `crosses` and `crosses_back` serve another client.
  pub data Step (s : Net) : Net → Type 0 where
    calls :
        (proc : ℕ) (c : Rpcc) (h : ReqHeader)
        → s.client.xid + 1 < 4294967296
        → begin_call s.client proc ≡ (c, sends h)
        → Step s (record s { client = c; sent = h ∷ s.sent })
    arrives : (h : ReqHeader) → In h s.sent → Step s (arrive s known h)
    finishes :
        (h : ReqHeader) (buf : Bytes) (server : Rpcs)
        → In h s.sent
        → In h.xid s.executed
        → dispatch_reply s.server h buf ≡ some server
        → Step s (record s { server = server; replies = (h.xid, buf) ∷ s.replies })
    hears :
        (h : ReqHeader) (r : ℕ) (buf : Bytes)
        → In h s.sent
        → Step s (record s { client = got_pdu s.client h.xid r buf })
    ends :
        (h : ReqHeader) → In h s.sent → Step s (record s { client = (end_call s.client h.xid).0 })
    crosses :
        (h : ReqHeader)
        → h.clt_nonce ≢ s.client.clt_nonce
        → Step s (record s { server = (dispatch s.server known h).0 })
    crosses_back :
        (h : ReqHeader) (buf : Bytes) (server : Rpcs)
        → h.clt_nonce ≢ s.client.clt_nonce
        → dispatch_reply s.server h buf ≡ some server
        → Step s (record s { server = server })

  pub data Reach (s : Net) : Net → Type 0 where
    here : Reach s s
    next : {t u : Net} → Reach s t → Step t u → Reach s u

-- A client that has just been made and a server that has no window for it.
pub record IsStart (s : Net) : Type 0 where
  pub numbered : s.client.xid ≡ 1
  pub window : s.client.xid_rep_window ≡ 0 ∷ []
  pub unknown : lookup s.client.clt_nonce s.server.reply_window ≡ none
  pub named : s.client.clt_nonce ≢ 0
  pub unsent : s.sent ≡ []
  pub idle : s.executed ≡ []
  pub silent : s.replies ≡ []
