-- ===== src/Rpc/System/Once.antt =====
-- That the server of rpc.cc executes no request twice, whatever the network does.
use distributed_system_lab.Base.{
  ℕ, ◌<◌, ◌≡◌, ◌≢◌, refl, sym, ap, subst, ◌∙◌, Bool, true, Option, List, [], ◌∷◌, arith, In, map,
}
use distributed_system_lab.Base.Tests.{nat_key}
use distributed_system_lab.Base.Map.{or_else}
use distributed_system_lab.Rpc.Numbers.{has, seen, IsAscending, IsDistinct}
use distributed_system_lab.Rpc.Client.{begin_call, end_call, got_pdu}
use distributed_system_lab.Rpc.Client.Window.{IsWindow}
use distributed_system_lab.Rpc.Server.{Reply, Rpcs, ReqHeader, dispatch}
use distributed_system_lab.Rpc.Server.Dispatch.{window_of, dispatch-other, dispatch_reply-other}
use distributed_system_lab.Rpc.System.Invariant.{arrive-ServerGood, finish-ServerGood}
use distributed_system_lab.Rpc.System.Requests.{
  ServerGood, Good, begin_call-ClientGood, update-ClientGood, got_pdu-ClientGood,
}
use distributed_system_lab.Rpc.System.{
  Net, arrive, Step, calls, arrives, finishes, hears, ends, crosses, crosses_back, Reach, here,
  next, IsStart,
}

pub start-Good : (s : Net) → IsStart s → Good s
start-Good s h = record {
  client = record {
    named = h.named;
    fits = omega (arith, h.numbered);
    window = subst IsWindow (sym h.window) first_window;
    known = λ e k. below e (ap (seen e) (sym h.window) ∙ k);
    headers = λ q i. absurd (subst (In q) h.unsent i);
    distinct =
        subst (λ (l : List ReqHeader). IsDistinct (map (λ (q : ReqHeader). q.xid) l)) (sym h.unsent)
          tt;
  };
  server =
      subst (λ (o : Option (List Reply)). ServerGood (or_else o []) s.executed) (sym h.unknown)
        (subst (ServerGood []) (sym h.idle) nothing);
}
  where
    first_window : IsWindow (0 ∷ [])
    first_window = record {
      ordered = (omega arith, tt);
      not_empty = λ e. ground arith;
      fits = (omega arith, tt);
      gap = unfold has in refl;
    }

    below : (e : ℕ) → seen e (0 ∷ []) ≡ true → e < s.client.xid
    below e k = unfold seen has in ground (arith, h.numbered)

    nothing : ServerGood [] []
    nothing = record { ascending = unfold IsAscending in tt; seen_all = λ e i. absurd i; once = tt }

-- The server's part of the invariant carries over to the client's number as it is written in a
-- header, and to a window that stays.
at_nonce :
    (s : Rpcs) (n m : ℕ) (executed : List ℕ)
    → n ≡ m
    → ServerGood (window_of s n) executed
    → ServerGood (window_of s m) executed
at_nonce s n m executed e g = subst (λ (i : ℕ). ServerGood (window_of s i) executed) e g

Step-Good : (known : ℕ → Bool) {s t : Net} → Step known s t → Good s → Good t
Step-Good known {s} (calls proc c h small e) g = record {
  client = begin_call-ClientGood s.client c proc h s.sent small e g.client;
  server =
      at_nonce s.server s.client.clt_nonce c.clt_nonce s.executed
        (unfold begin_call in ground arith) g.server;
}
Step-Good known {s} (arrives h i) g =
    unfold arrive in
    (let ok = g.client.headers h i in
      record {
        client = g.client;
        server = at_nonce (dispatch s.server known h).0 h.clt_nonce s.client.clt_nonce _ ok.from (
            arrive-ServerGood s.server s.executed known h
              (subst (λ (n : ℕ). n ≢ 0) (sym ok.from) g.client.named) ok.acked
              (at_nonce s.server s.client.clt_nonce h.clt_nonce s.executed (sym ok.from) g.server));
      })
Step-Good known {s} (finishes h buf server i x e) g =
    (let ok = g.client.headers h i in
      record {
        client = g.client;
        server = at_nonce server h.clt_nonce s.client.clt_nonce s.executed ok.from (
            finish-ServerGood s.server server s.executed h buf
              (subst (λ (n : ℕ). n ≢ 0) (sym ok.from) g.client.named) e
              (at_nonce s.server s.client.clt_nonce h.clt_nonce s.executed (sym ok.from) g.server));
      })
Step-Good known {s} (hears h r buf i) g = record {
  client = got_pdu-ClientGood s.client h s.sent r buf i g.client;
  server =
      at_nonce s.server s.client.clt_nonce (got_pdu s.client h.xid r buf).clt_nonce s.executed
        (unfold got_pdu in ground arith) g.server;
}
Step-Good known {s} (ends h i) g =
    unfold end_call in
    record {
      client =
          update-ClientGood s.client (end_call s.client h.xid).0 h s.sent i
            (unfold end_call in refl) (unfold end_call in refl) (unfold end_call in refl) g.client;
      server = g.server;
    }
Step-Good known {s} (crosses h ne) g = record {
  client = g.client;
  server =
      subst (λ (l : List Reply). ServerGood l s.executed)
        (sym (dispatch-other s.server known h s.client.clt_nonce ne)) g.server;
}
Step-Good known {s} (crosses_back h buf server ne e) g = record {
  client = g.client;
  server =
      subst (λ (l : List Reply). ServerGood l s.executed)
        (sym (dispatch_reply-other s.server server h buf s.client.clt_nonce ne e)) g.server;
}

pub Reach-Good : (known : ℕ → Bool) {s t : Net} → Good s → Reach known s t → Good t
Reach-Good known g here = g
Reach-Good known g (next r x) = Step-Good known x (Reach-Good known g r)

-- From a new client and a server that does not know it, whatever headers are sent again, delayed
-- or lost, and whatever other clients ask: the client gives no number twice, the handler of no
-- number is called twice, and the number that a header acknowledges is below its own.
pub at_most_once :
    (known : ℕ → Bool) (s t : Net)
    → IsStart s
    → Reach known s t
    → IsDistinct (map (λ (h : ReqHeader). h.xid) t.sent)
      × IsDistinct t.executed
      × ((h : ReqHeader) → In h t.sent → h.xid_rep < h.xid)
at_most_once known s t h r =
    let g = Reach-Good known (start-Good s h) r in
    (g.client.distinct, g.server.once, λ q i. (g.client.headers q i).acked)
