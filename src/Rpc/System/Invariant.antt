-- ===== src/Rpc/System/Invariant.antt =====
-- What a request and a reply at the server of rpc.cc keep of that.
use distributed_system_lab.Base.{
  ℕ, ◌<◌, ◌≡◌, ◌≢◌, refl, sym, ap, subst, ◌∙◌, inl, inr, Bool, true, some, List, arith,
}
use distributed_system_lab.Base.Tests.{nat_key}
use distributed_system_lab.Base.Bytes.{Bytes}
use distributed_system_lab.Rpc.Numbers.{seen, IsAscending}
use distributed_system_lab.Rpc.Server.{
  Reply, Rpcs, ReqHeader, RpcState, new, inprogress, done, forgotten, check_window, Dispatched,
  executes, of_state, dispatch, dispatch_reply, dropped, oldsrv_failure, aborts, waits, resends,
  atmostonce_failure,
}
use distributed_system_lab.Rpc.Server.Acked.{xids}
use distributed_system_lab.Rpc.Server.Check.{Checked, check_window-Checked, xids-store_reply}
use distributed_system_lab.Rpc.Server.Dispatch.{
  window_of, Quiet, dispatch-window, dispatch_reply-window,
}
use distributed_system_lab.Rpc.System.{noted}
use distributed_system_lab.Rpc.System.Requests.{ServerGood}

-- At the server.
check-ServerGood :
    (w : List Reply) (executed : List ℕ) (xid xid_rep : ℕ)
    → xid_rep < xid
    → ServerGood w executed
    → ServerGood
        (check_window w xid xid_rep).1
        (noted (of_state (check_window w xid xid_rep).0) xid executed)
check-ServerGood w executed xid r lt g =
    go (check_window w xid r) (check_window-Checked w xid r g.ascending lt)
  where
    go :
        (t : RpcState × List Reply)
        → Checked w xid t
        → ServerGood t.1 (noted (of_state t.0) xid executed)
    go (new, v) c = record {
      ascending = c.ascending;
      seen_all = λ e i. elim i [
        | inl same ↦ subst (λ (x : ℕ). seen x (xids v) ≡ true) (sym same) (c.now_seen refl)
        | inr j ↦ c.kept e (g.seen_all e j)
      ];
      once = (
        λ i.
            (let old = g.seen_all xid i in let fresh = c.unseen refl in ground (arith, old, fresh)),
        g.once,
      );
    }
    go (inprogress, v) c = record {
      ascending = c.ascending;
      seen_all = λ e i. c.kept e (g.seen_all e i);
      once = g.once;
    }
    go (done buf, v) c = record {
      ascending = c.ascending;
      seen_all = λ e i. c.kept e (g.seen_all e i);
      once = g.once;
    }
    go (forgotten, v) c = record {
      ascending = c.ascending;
      seen_all = λ e i. c.kept e (g.seen_all e i);
      once = g.once;
    }

Quiet-noted : (d : Dispatched) (xid : ℕ) (l : List ℕ) → Quiet d → noted d xid l ≡ l
Quiet-noted dropped xid l q = refl
Quiet-noted oldsrv_failure xid l q = refl
Quiet-noted aborts xid l q = refl
Quiet-noted executes xid l q = absurd q
Quiet-noted waits xid l q = absurd q
Quiet-noted (resends buf) xid l q = absurd q
Quiet-noted atmostonce_failure xid l q = absurd q

pub arrive-ServerGood :
    (s : Rpcs) (executed : List ℕ) (known : ℕ → Bool) (h : ReqHeader)
    → h.clt_nonce ≢ 0
    → h.xid_rep < h.xid
    → ServerGood (window_of s h.clt_nonce) executed
    → ServerGood
        (window_of (dispatch s known h).0 h.clt_nonce)
        (noted (dispatch s known h).1 h.xid executed)
arrive-ServerGood s executed known h named lt g = elim (dispatch-window s known h named) [
  | inl (w, d) ↦
      subst (λ (l : List Reply). ServerGood l (noted (dispatch s known h).1 h.xid executed)) (sym w)
        (subst
          (λ (a : Dispatched).
            ServerGood (check_window (window_of s h.clt_nonce) h.xid h.xid_rep).1
              (noted a h.xid executed))
          (sym d) (check-ServerGood (window_of s h.clt_nonce) executed h.xid h.xid_rep lt g))
  | inr (w, q) ↦
      subst (λ (l : List Reply). ServerGood l (noted (dispatch s known h).1 h.xid executed)) (sym w)
        (subst (λ (l : List ℕ). ServerGood (window_of s h.clt_nonce) l)
          (sym (Quiet-noted _ h.xid executed q)) g)
]

pub finish-ServerGood :
    (s t : Rpcs) (executed : List ℕ) (h : ReqHeader) (buf : Bytes)
    → h.clt_nonce ≢ 0
    → dispatch_reply s h buf ≡ some t
    → ServerGood (window_of s h.clt_nonce) executed
    → ServerGood (window_of t h.clt_nonce) executed
finish-ServerGood s t executed h buf named e g = record {
  ascending = subst IsAscending (sym same) g.ascending;
  seen_all = λ i k. ap (seen i) same ∙ g.seen_all i k;
  once = g.once;
}
  where
    same : xids (window_of t h.clt_nonce) ≡ xids (window_of s h.clt_nonce)
    same = xids-store_reply _ _ h.xid buf (dispatch_reply-window s t h buf named e)
