-- ===== src/Rpc/System/Replies.antt =====
-- That what the server of rpc.cc sends again is what the handler replied.
use distributed_system_lab.Base.{
  ℕ, ◌≡◌, ◌≢◌, refl, sym, subst, ◌∙◌, inl, inr, Bool, true, Option, some, List, [], ◌∷◌, arith, In,
  All,
}
use distributed_system_lab.Base.Tests.{nat_key}
use distributed_system_lab.Base.Bytes.{Bytes}
use distributed_system_lab.Base.Map.{or_else}
use distributed_system_lab.Rpc.Client.{begin_call, end_call, got_pdu}
use distributed_system_lab.Rpc.Server.{
  Reply, reply_t, Rpcs, ReqHeader, RpcState, new, inprogress, done, forgotten, Dispatched, executes,
  waits, resends, of_state, dispatch, dispatch_reply, dropped, oldsrv_failure, aborts,
  atmostonce_failure,
}
use distributed_system_lab.Rpc.Server.Check.{Holds, check_window-All, store_reply-All}
use distributed_system_lab.Rpc.Server.Dispatch.{
  window_of, Quiet, dispatch-other, dispatch-window, dispatch_reply-other, dispatch_reply-window,
}
use distributed_system_lab.Rpc.System.Requests.{Good}
use distributed_system_lab.Rpc.System.Once.{start-Good, Reach-Good}
use distributed_system_lab.Rpc.System.{
  Net, noted, arrive, Step, calls, arrives, finishes, hears, ends, crosses, crosses_back, Reach,
  here, next, IsStart,
}

-- A reply that is in the window was given by a handler.
abbrev Given : List (ℕ × Bytes) → Reply → Type 0
Given l x = x.cb_present ≡ true → In (x.xid, x.buf) l

record Kept (s : Net) : Type 0 where
  given : All (Given s.replies) (window_of s.server s.client.clt_nonce)
  ran : (x : ℕ) (buf : Bytes) → In (x, buf) s.replies → In x s.executed

All-Given_more :
    (p : ℕ × Bytes) (l : List (ℕ × Bytes)) (w : List Reply)
    → All (Given l) w
    → All (Given (p ∷ l)) w
All-Given_more p l [] h = tt
All-Given_more p l (x ∷ w) (a, b) = (λ c. inr (a c), All-Given_more p l w b)

reply_t-Given : (l : List (ℕ × Bytes)) (xid : ℕ) → Given l (reply_t xid)
unfolding reply_t
reply_t-Given l xid e = absurd (ground arith)

noted-In : (d : Dispatched) (xid x : ℕ) (l : List ℕ) → In x l → In x (noted d xid l)
noted-In executes xid x l i = inr i
noted-In dropped xid x l i = i
noted-In oldsrv_failure xid x l i = i
noted-In aborts xid x l i = i
noted-In waits xid x l i = i
noted-In (resends buf) xid x l i = i
noted-In atmostonce_failure xid x l i = i

arrive-Given :
    (s : Rpcs) (l : List (ℕ × Bytes)) (known : ℕ → Bool) (h : ReqHeader)
    → h.clt_nonce ≢ 0
    → All (Given l) (window_of s h.clt_nonce)
    → All (Given l) (window_of (dispatch s known h).0 h.clt_nonce)
arrive-Given s l known h named g = elim (dispatch-window s known h named) [
  | inl (w, d) ↦
      subst (All (Given l)) (sym w)
        (check_window-All (Given l) (window_of s h.clt_nonce) h.xid h.xid_rep
          (reply_t-Given l h.xid) g).0
  | inr (w, q) ↦ subst (All (Given l)) (sym w) g
]

finish-Given :
    (s t : Rpcs) (l : List (ℕ × Bytes)) (h : ReqHeader) (buf : Bytes)
    → h.clt_nonce ≢ 0
    → dispatch_reply s h buf ≡ some t
    → All (Given l) (window_of s h.clt_nonce)
    → All (Given ((h.xid, buf) ∷ l)) (window_of t h.clt_nonce)
finish-Given s t l h buf named e g =
    store_reply-All (Given ((h.xid, buf) ∷ l)) (window_of s h.clt_nonce) (window_of t h.clt_nonce)
      h.xid buf (λ c. inl refl) (All-Given_more (h.xid, buf) l (window_of s h.clt_nonce) g)
      (dispatch_reply-window s t h buf named e)

at_nonce :
    (s : Rpcs) (n m : ℕ) (l : List (ℕ × Bytes))
    → n ≡ m
    → All (Given l) (window_of s n)
    → All (Given l) (window_of s m)
at_nonce s n m l e g = subst (λ (i : ℕ). All (Given l) (window_of s i)) e g

-- The nonce of a header that was sent.
named_in :
    (s : Net) (h : ReqHeader)
    → Good s
    → In h s.sent
    → (h.clt_nonce ≡ s.client.clt_nonce) × (h.clt_nonce ≢ 0)
named_in s h g i =
    let ok = g.client.headers h i in
    (ok.from, subst (λ (n : ℕ). n ≢ 0) (sym ok.from) g.client.named)

Step-Kept : (known : ℕ → Bool) {s t : Net} → Step known s t → Good s → Kept s → Kept t
Step-Kept known {s} (calls proc c h small e) g k = record {
  given =
      at_nonce s.server s.client.clt_nonce c.clt_nonce s.replies (unfold begin_call in ground arith)
        k.given;
  ran = k.ran;
}
Step-Kept known {s} (arrives h i) g k =
    unfold arrive in
    (let (from, named) = named_in s h g i in
      record {
        given =
            at_nonce (dispatch s.server known h).0 h.clt_nonce s.client.clt_nonce s.replies from (
              arrive-Given s.server s.replies known h named
                (at_nonce s.server s.client.clt_nonce h.clt_nonce s.replies (sym from) k.given));
        ran = λ x buf j. noted-In (dispatch s.server known h).1 h.xid x s.executed (k.ran x buf j);
      })
Step-Kept known {s} (finishes h buf server i x e) g k =
    (let (from, named) = named_in s h g i in
      record {
        given = at_nonce server h.clt_nonce s.client.clt_nonce ((h.xid, buf) ∷ s.replies) from (
            finish-Given s.server server s.replies h buf named e
              (at_nonce s.server s.client.clt_nonce h.clt_nonce s.replies (sym from) k.given));
        ran = λ y b j. elim j [
          | inl same ↦ subst (λ (p : ℕ × Bytes). In p.0 s.executed) (sym same) x
          | inr old ↦ k.ran y b old
        ];
      })
Step-Kept known {s} (hears h r buf i) g k = record {
  given =
      at_nonce s.server s.client.clt_nonce (got_pdu s.client h.xid r buf).clt_nonce s.replies
        (unfold got_pdu in ground arith) k.given;
  ran = k.ran;
}
Step-Kept known {s} (ends h i) g k = unfold end_call in record { given = k.given; ran = k.ran }
Step-Kept known {s} (crosses h ne) g k = record {
  given =
      subst (All (Given s.replies)) (sym (dispatch-other s.server known h s.client.clt_nonce ne))
        k.given;
  ran = k.ran;
}
Step-Kept known {s} (crosses_back h buf server ne e) g k = record {
  given =
      subst (All (Given s.replies))
        (sym (dispatch_reply-other s.server server h buf s.client.clt_nonce ne e)) k.given;
  ran = k.ran;
}

start-Kept : (s : Net) → IsStart s → Kept s
start-Kept s h = record {
  given =
      subst (λ (o : Option (List Reply)). All (Given s.replies) (or_else o [])) (sym h.unknown) tt;
  ran = λ x buf i. absurd (subst (In (x, buf)) h.silent i);
}

Reach-Kept : (known : ℕ → Bool) {s t : Net} → IsStart s → Reach known s t → Kept t
Reach-Kept known {s} h here = start-Kept s h
Reach-Kept known {s} h (next r x) =
    Step-Kept known x (Reach-Good known (start-Good s h) r) (Reach-Kept known h r)

resends-Holds :
    (P : Reply → Type 0) (xid : ℕ) (t : RpcState) (buf : Bytes)
    → Holds P xid t
    → of_state t ≡ resends buf
    → (x : Reply) × P x × (x.xid ≡ xid) × (x.cb_present ≡ true) × (x.buf ≡ buf)
resends-Holds P xid new buf h e = absurd (ground arith)
resends-Holds P xid inprogress buf h e = absurd (ground arith)
resends-Holds P xid forgotten buf h e = absurd (ground arith)
resends-Holds P xid (done b) buf (x, p, i, c, d) e = (x, p, i, c, d ∙ ground arith)

Quiet-resends : (d : Dispatched) (buf : Bytes) → Quiet d → d ≡ resends buf → ⊥
Quiet-resends d buf q e = subst Quiet e q

-- From a new client and a server that does not know it, after any steps: when the server answers a
-- header of the client by sending a reply again, the handler of the request has been called, and
-- it has replied just that.
pub resent_reply :
    (known : ℕ → Bool) (s t : Net) (h : ReqHeader) (buf : Bytes)
    → IsStart s
    → Reach known s t
    → In h t.sent
    → (dispatch t.server known h).1 ≡ resends buf
    → In (h.xid, buf) t.replies × In h.xid t.executed
resent_reply known s t h buf start r i e = (here_it, k.ran h.xid buf here_it)
  where
    k : Kept t
    k = Reach-Kept known start r

    nonce : (h.clt_nonce ≡ t.client.clt_nonce) × (h.clt_nonce ≢ 0)
    nonce = named_in t h (Reach-Good known (start-Good s start) r) i

    given : All (Given t.replies) (window_of t.server h.clt_nonce)
    given = at_nonce t.server t.client.clt_nonce h.clt_nonce t.replies (sym nonce.0) k.given

    here_it : In (h.xid, buf) t.replies
    here_it = elim (dispatch-window t.server known h nonce.1) [
      | inr (w, q) ↦ absurd (Quiet-resends _ buf q e)
      | inl (w, d) ↦
          (let (x, p, same, c, b) =
              resends-Holds (Given t.replies) h.xid _ buf
                (check_window-All (Given t.replies) (window_of t.server h.clt_nonce) h.xid h.xid_rep
                  (reply_t-Given t.replies h.xid) given).1
                (sym d ∙ e) in
            subst (λ (n : ℕ). In (n, buf) t.replies) same
              (subst (λ (l : Bytes). In (x.xid, l) t.replies) b (p c)))
    ]
