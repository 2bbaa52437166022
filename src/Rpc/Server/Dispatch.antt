-- ===== src/Rpc/Server/Dispatch.antt =====
-- What a request and its reply do at the server of rpc.cc to the window of one client.
use distributed_system_lab.Base.{
  ℕ, ◌≡◌, ◌≢◌, refl, ap, ◌∙◌, ◌⊎◌, inl, inr, Bool, false, not, ◌&&◌, Option, some, List, [], nat_eq,
  arith, Bool-cases, Option-cases,
}
use distributed_system_lab.Base.Tests.{nat_key}
use distributed_system_lab.Base.Bytes.{Bytes}
use distributed_system_lab.Base.Map.{lookup, or_else, lookup-insert, lookup-insert_self}
use distributed_system_lab.Rpc.Server.{
  Reply, Rpcs, ReqHeader, check_window, store_reply, checkduplicate_and_update, add_reply,
  Dispatched, dropped, oldsrv_failure, aborts, executes, waits, resends, atmostonce_failure,
  of_state, dispatch, dispatch_reply,
}

abbrev pub window_of : Rpcs → ℕ → List Reply
window_of s n = or_else (lookup n s.reply_window) []

-- The request is answered without a look at the window.
abbrev pub Quiet : Dispatched → Type 0
Quiet dropped = Unit
Quiet oldsrv_failure = Unit
Quiet aborts = Unit
Quiet executes = ⊥
Quiet waits = ⊥
Quiet (resends buf) = ⊥
Quiet atmostonce_failure = ⊥

pub dispatch-other :
    (s : Rpcs) (known : ℕ → Bool) (h : ReqHeader) (n : ℕ)
    → h.clt_nonce ≢ n
    → window_of (dispatch s known h).0 n ≡ window_of s n
unfolding dispatch checkduplicate_and_update
dispatch-other s known h n ne = ground (
  arith,
  lookup-insert h.clt_nonce n (check_window (window_of s h.clt_nonce) h.xid h.xid_rep).1
      s.reply_window,
)

pub dispatch-window :
    (s : Rpcs) (known : ℕ → Bool) (h : ReqHeader)
    → h.clt_nonce ≢ 0
    → ((window_of (dispatch s known h).0 h.clt_nonce
          ≡ (check_window (window_of s h.clt_nonce) h.xid h.xid_rep).1)
        × ((dispatch s known h).1
            ≡ of_state (check_window (window_of s h.clt_nonce) h.xid h.xid_rep).0))
      ⊎ ((window_of (dispatch s known h).0 h.clt_nonce ≡ window_of s h.clt_nonce)
          × Quiet (dispatch s known h).1)
dispatch-window s known h ne = elim (Bool-cases s.reachable) [
  | inr a ↦ inr (unfold dispatch in rw (a, dispatch) (refl, tt))
  | inl a ↦ elim (Bool-cases (not (nat_eq h.srv_nonce 0) && not (nat_eq h.srv_nonce s.nonce))) [
    | inl b ↦ inr (unfold dispatch in rw (a, dispatch) (rw b (refl, tt)))
    | inr b ↦ elim (Bool-cases (known h.proc)) [
      | inr c ↦ inr (unfold dispatch in rw (a, dispatch) (rw b (rw c (refl, tt))))
      | inl c ↦ inl (
          unfold dispatch in
          rw (a, dispatch)
            (rw b (
              rw c (
                rw named (
                  unfold checkduplicate_and_update in
                  (
                    ap (λ (o : Option (List Reply)). or_else o [])
                        (lookup-insert_self h.clt_nonce _ s.reply_window),
                    refl,
                  ))))))
    ]
  ]
]
  where
    named : nat_eq h.clt_nonce 0 ≡ false
    named = ground arith

pub dispatch_reply-other :
    (s t : Rpcs) (h : ReqHeader) (buf : Bytes) (n : ℕ)
    → h.clt_nonce ≢ n
    → dispatch_reply s h buf ≡ some t
    → window_of t n ≡ window_of s n
dispatch_reply-other s t h buf n ne e = elim (Bool-cases (nat_eq h.clt_nonce 0)) [
  | inl k ↦ unfold dispatch_reply in ground arith
  | inr k ↦ elim (Option-cases (store_reply h.xid buf (window_of s h.clt_nonce))) [
    | inl j ↦ absurd (unfold dispatch_reply add_reply in ground arith)
    | inr (w, j) ↦
        unfold dispatch_reply add_reply in
        ground (arith, lookup-insert h.clt_nonce n w s.reply_window)
  ]
]

pub dispatch_reply-window :
    (s t : Rpcs) (h : ReqHeader) (buf : Bytes)
    → h.clt_nonce ≢ 0
    → dispatch_reply s h buf ≡ some t
    → store_reply h.xid buf (window_of s h.clt_nonce) ≡ some (window_of t h.clt_nonce)
dispatch_reply-window s t h buf ne e =
    elim (Option-cases (store_reply h.xid buf (window_of s h.clt_nonce))) [
      | inl j ↦ absurd (unfold dispatch_reply add_reply in ground arith)
      | inr (w, j) ↦
          j
          ∙ ap (λ (l : List Reply). some l)
              (unfold dispatch_reply add_reply in
                ground (arith, lookup-insert_self h.clt_nonce w s.reply_window))
    ]
