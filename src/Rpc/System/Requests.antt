-- ===== src/Rpc/System/Requests.antt =====
-- What holds between a client of rpc.cc, the headers that it has sent, and the server.
use distributed_system_lab.Base.{
  ℕ, ◌+◌, ◌<◌, ◌≡◌, ◌≢◌, refl, sym, ap, subst, ◌∙◌, inl, inr, true, ◌||◌, List, [], ◌∷◌, nat_eq,
  arith, Bool-cases, In, map,
}
use distributed_system_lab.Base.Tests.{nat_key}
use distributed_system_lab.Base.Bytes.{Bytes}
use distributed_system_lab.Rpc.Numbers.{has, seen, IsAscending, IsDistinct}
use distributed_system_lab.Rpc.Client.{Rpcc, sends, begin_call, got_pdu, update_xid_rep, front}
use distributed_system_lab.Rpc.Client.Window.{IsWindow, update_xid_rep-IsWindow}
use distributed_system_lab.Rpc.Server.{Reply, ReqHeader}
use distributed_system_lab.Rpc.Server.Acked.{xids}
use distributed_system_lab.Rpc.Server.Dispatch.{window_of}
use distributed_system_lab.Rpc.System.{Net}

-- The numbers that the client has had replies for are below the next, as are those that it has
-- sent, and each header acknowledges a number below its own.
pub record Sent (c : Rpcc) (h : ReqHeader) : Type 0 where
  pub acked : h.xid_rep < h.xid
  pub below : h.xid < c.xid
  pub from : h.clt_nonce ≡ c.clt_nonce

pub record ClientGood (c : Rpcc) (sent : List ReqHeader) : Type 0 where
  pub named : c.clt_nonce ≢ 0
  pub fits : c.xid < 4294967296
  pub window : IsWindow c.xid_rep_window
  pub known : (e : ℕ) → seen e c.xid_rep_window ≡ true → e < c.xid
  pub headers : (h : ReqHeader) → In h sent → Sent c h
  pub distinct : IsDistinct (map (λ (h : ReqHeader). h.xid) sent)

pub record ServerGood (w : List Reply) (executed : List ℕ) : Type 0 where
  pub ascending : IsAscending (xids w)
  pub seen_all : (e : ℕ) → In e executed → seen e (xids w) ≡ true
  pub once : IsDistinct executed

pub record Good (s : Net) : Type 0 where
  pub client : ClientGood s.client s.sent
  pub server : ServerGood (window_of s.server s.client.clt_nonce) s.executed

front-seen : (w : List ℕ) → w ≢ [] → seen (front w) w ≡ true
unfolding seen has
front-seen [] h = absurd (h refl)
front-seen (x ∷ w) h = ground arith

In-map :
    (x : ℕ) (l : List ReqHeader)
    → In x (map (λ (h : ReqHeader). h.xid) l)
    → (h : ReqHeader) × In h l × (h.xid ≡ x)
In-map x [] i = absurd i
In-map x (h ∷ l) (inl e) = (h, inl refl, sym e)
In-map x (h ∷ l) (inr i) = (let (g, j, e) = In-map x l i in (g, inr j, e))

-- call1 up to the wait.
pub begin_call-ClientGood :
    (c d : Rpcc) (proc : ℕ) (h : ReqHeader) (sent : List ReqHeader)
    → c.xid + 1 < 4294967296
    → begin_call c proc ≡ (d, sends h)
    → ClientGood c sent
    → ClientGood d (h ∷ sent)
begin_call-ClientGood c d proc h sent small e g = record {
  named = subst (λ (n : ℕ). n ≢ 0) (sym same_nonce) g.named;
  fits = omega (arith, small, next_number);
  window = subst IsWindow (sym same_window) g.window;
  known = λ i k. known_in i k;
  headers = headers_in;
  distinct = (fresh, g.distinct);
}
  where
    next_number : d.xid ≡ c.xid + 1
    next_number = unfold begin_call in ground arith

    same_nonce : d.clt_nonce ≡ c.clt_nonce
    same_nonce = unfold begin_call in ground arith

    same_window : d.xid_rep_window ≡ c.xid_rep_window
    same_window = unfold begin_call in ground arith

    number : h.xid ≡ c.xid
    number = unfold begin_call in ground arith

    acked_front : h.xid_rep ≡ front c.xid_rep_window
    acked_front = unfold begin_call in ground arith

    nonce : h.clt_nonce ≡ c.clt_nonce
    nonce = unfold begin_call in ground arith

    known_in : (i : ℕ) → seen i d.xid_rep_window ≡ true → i < d.xid
    known_in i k =
        let old = g.known i (ap (λ (l : List ℕ). seen i l) (sym same_window) ∙ k) in
        omega (arith, old, next_number)

    headers_in : (q : ReqHeader) → In q (h ∷ sent) → Sent d q
    headers_in q (inl i) = subst (Sent d) (sym i) (record {
      acked =
          (let low =
              g.known (front c.xid_rep_window) (front-seen c.xid_rep_window g.window.not_empty) in
            omega (arith, low, acked_front, number));
      below = omega (arith, number, next_number);
      from = nonce ∙ sym same_nonce;
    })
    headers_in q (inr i) =
        (let old = g.headers q i in
          record {
            acked = old.acked;
            below = omega (arith, old.below, next_number);
            from = old.from ∙ sym same_nonce;
          })

    fresh : In h.xid (map (λ (h : ReqHeader). h.xid) sent) → ⊥
    fresh i =
        (let (q, j, same) = In-map h.xid sent i in
          omega (arith, (g.headers q j).below, number, same))

-- A reply, or the end of a call.
pub update-ClientGood :
    (c d : Rpcc) (h : ReqHeader) (sent : List ReqHeader)
    → In h sent
    → d.clt_nonce ≡ c.clt_nonce
    → d.xid ≡ c.xid
    → d.xid_rep_window ≡ update_xid_rep h.xid c.xid_rep_window
    → ClientGood c sent
    → ClientGood d sent
update-ClientGood c d h sent i same_nonce same_number w g = record {
  named = subst (λ (n : ℕ). n ≢ 0) (sym same_nonce) g.named;
  fits = omega (arith, g.fits, same_number);
  window = subst IsWindow (sym w) updated.0;
  known = λ e k.
      (let new = updated.1 e in
        let old = ap (seen e) (sym w) ∙ k in omega (arith, below e (sym new ∙ old), same_number));
  headers = λ q j. record {
    acked = (g.headers q j).acked;
    below = omega (arith, (g.headers q j).below, same_number);
    from = (g.headers q j).from ∙ sym same_nonce;
  };
  distinct = g.distinct;
}
  where
    updated :
        IsWindow (update_xid_rep h.xid c.xid_rep_window)
        × ((e : ℕ)
            → seen e (update_xid_rep h.xid c.xid_rep_window)
              ≡ (seen e c.xid_rep_window || nat_eq h.xid e))
    updated =
        update_xid_rep-IsWindow h.xid c.xid_rep_window
          (omega (arith, (g.headers h i).below, g.fits)) g.window

    below : (e : ℕ) → (seen e c.xid_rep_window || nat_eq h.xid e) ≡ true → e < c.xid
    below e k = elim (Bool-cases (seen e c.xid_rep_window)) [
      | inl j ↦ g.known e j
      | inr j ↦ (let same : h.xid ≡ e = ground arith in omega (arith, (g.headers h i).below, same))
    ]

pub got_pdu-ClientGood :
    (c : Rpcc) (h : ReqHeader) (sent : List ReqHeader) (r : ℕ) (buf : Bytes)
    → In h sent
    → ClientGood c sent
    → ClientGood (got_pdu c h.xid r buf) sent
got_pdu-ClientGood c h sent r buf i g =
    update-ClientGood c (got_pdu c h.xid r buf) h sent i (unfold got_pdu in ground arith)
      (unfold got_pdu in ground arith) (unfold got_pdu in ground arith) g
