-- ===== src/Rpc/Server/Check.antt =====
-- What checkduplicate_and_update and add_reply of rpc.cc do to a client's window.
use distributed_system_lab.Base.{
  ℕ, ◌<◌, ◌≡◌, refl, sym, ap, subst, ◌∙◌, inl, inr, true, false, some, List, [], ◌∷◌, ltb, nat_eq,
  arith, Bool-cases, Option-cases, All, All-append, subst_some,
}
use distributed_system_lab.Base.Bytes.{Bytes}
use distributed_system_lab.Rpc.Numbers.{IsAscending, seen}
use distributed_system_lab.Rpc.Server.{
  Reply, reply_t, RpcState, new, inprogress, done, forgotten, drop_acked, front, back, seek, settle,
  check_window, store_reply,
}
use distributed_system_lab.Rpc.Server.Window.{Settled, settle-Settled}
use distributed_system_lab.Rpc.Server.Acked.{
  xids, is_new, has-seen, drop_acked-IsAscending, drop_acked-seen,
}

-- A request whose number is above the one that it acknowledges: it is new only if it has not been
-- seen, is seen from then on, and all that was seen before stays seen.
pub record Checked (w : List Reply) (xid : ℕ) (t : RpcState × List Reply) : Type 0 where
  pub ascending : IsAscending (xids t.1)
  pub unseen : is_new t.0 ≡ true → seen xid (xids w) ≡ false
  pub now_seen : is_new t.0 ≡ true → seen xid (xids t.1) ≡ true
  pub kept : (e : ℕ) → seen e (xids w) ≡ true → seen e (xids t.1) ≡ true

pub check_window-Checked :
    (w : List Reply) (xid xid_rep : ℕ)
    → IsAscending (xids w)
    → xid_rep < xid
    → Checked w xid (check_window w xid xid_rep)
unfolding check_window
check_window-Checked w xid r h lt = go (settle-Settled v xid (drop_acked-IsAscending r w h))
  where
    v : List Reply
    v = drop_acked r w

    old_unseen : seen xid (xids v) ≡ false → seen xid (xids w) ≡ false
    old_unseen f = elim (Bool-cases (seen xid (xids w))) [
      | inr k ↦ k
      | inl k ↦ elim (drop_acked-seen r xid w k) [
        | inl (e, below) ↦ absurd (omega (arith, lt, below))
        | inr j ↦ absurd (ground arith)
      ]
    ]

    go : Settled v xid (settle xid v) → Checked w xid (settle xid v)
    go (inl (fresh, placed, alone)) = record {
      ascending = placed.ascending;
      unseen = λ _. old_unseen placed.unseen;
      now_seen = λ _. has-seen xid _ placed.present;
      kept = λ e s. elim (drop_acked-seen r e w s) [
        | inl (none_left, below) ↦
            ap (λ (l : List Reply). seen e (xids l)) (alone none_left)
            ∙ unfold seen reply_t in ground arith
        | inr j ↦ placed.kept e j
      ];
    }
    go (inr (old, same)) = record {
      ascending =
          subst (λ (l : List Reply). IsAscending (xids l)) (sym same)
            (drop_acked-IsAscending r w h);
      unseen = λ f. absurd (ground arith);
      now_seen = λ f. absurd (ground arith);
      kept = λ e s. elim (drop_acked-seen r e w s) [
        | inl (none_left, below) ↦ absurd (nothing_new none_left old)
        | inr j ↦ ap (λ (l : List Reply). seen e (xids l)) same ∙ j
      ];
    }
      where
        nothing_new : v ≡ [] → is_new (settle xid v).0 ≡ false → ⊥
        nothing_new e f =
            unfold settle in ground (arith, ap (λ (l : List Reply). is_new (settle xid l).0) e)

-- What holds for each reply in the window, and of a new one, holds for each after a check.
module _ (P : Reply → Type 0) where
  drop_acked-All : (r : ℕ) (w : List Reply) → All P w → All P (drop_acked r w)
  unfolding drop_acked
  drop_acked-All r [] h = h
  drop_acked-All r (x ∷ w) (a, b) = elim (Bool-cases (ltb x.xid r)) [
    | inl k ↦ rw (k, drop_acked) (drop_acked-All r w b)
    | inr k ↦ rw (k, drop_acked) (a, b)
  ]

  seek-All : (xid : ℕ) (w : List Reply) → P (reply_t xid) → All P w → All P (seek xid w).1
  unfolding seek
  seek-All xid [] p h = (p, tt)
  seek-All xid (x ∷ w) p (a, b) = elim (Bool-cases (ltb x.xid xid)) [
    | inl k ↦ rw (k, seek) (a, seek-All xid w p b)
    | inr k ↦ elim (Bool-cases (nat_eq x.xid xid)) [
      | inl j ↦ rw (k, seek) (rw (j, seek) (a, b))
      | inr j ↦ rw (k, seek) (rw (j, seek) (p, (a, b)))
    ]
  ]

  -- The reply that is sent again is one that the window holds.
  abbrev pub Holds : ℕ → RpcState → Type 0
  Holds xid (done buf) = (x : Reply) × P x × (x.xid ≡ xid) × (x.cb_present ≡ true) × (x.buf ≡ buf)
  Holds xid new = Unit
  Holds xid inprogress = Unit
  Holds xid forgotten = Unit

  seek-Holds : (xid : ℕ) (w : List Reply) → All P w → Holds xid (seek xid w).0
  unfolding seek
  seek-Holds xid [] h = tt
  seek-Holds xid (x ∷ w) (a, b) = elim (Bool-cases (ltb x.xid xid)) [
    | inl k ↦ rw (k, seek) (seek-Holds xid w b)
    | inr k ↦ elim (Bool-cases (nat_eq x.xid xid)) [
      | inr j ↦ rw (k, seek) (rw (j, seek) tt)
      | inl j ↦ elim (Bool-cases x.cb_present) [
        | inl i ↦ rw (k, seek) (rw (j, seek) (rw (i, seek) (x, a, ground arith, i, refl)))
        | inr i ↦ rw (k, seek) (rw (j, seek) (rw (i, seek) tt))
      ]
    ]
  ]

  settle-All :
      (xid : ℕ) (v : List Reply)
      → P (reply_t xid)
      → All P v
      → All P (settle xid v).1 × Holds xid (settle xid v).0
  settle-All xid v p h = elim (Option-cases (back v)) [
    | inl e ↦ unfold settle in rw (e, settle) (All-append P v (reply_t xid ∷ []) h (p, tt), tt)
    | inr (m, e) ↦ elim (Bool-cases (ltb m xid)) [
      | inl k ↦
          unfold settle in rw (e, settle) (rw k (All-append P v (reply_t xid ∷ []) h (p, tt), tt))
      | inr k ↦ elim (Option-cases (front v)) [
        | inl j ↦
            unfold settle in rw (e, settle) (rw k (rw j (seek-All xid v p h, seek-Holds xid v h)))
        | inr (f, j) ↦ elim (Bool-cases (ltb xid f)) [
          | inl i ↦ unfold settle in rw (e, settle) (rw k (rw j (rw i (h, tt))))
          | inr i ↦
              unfold settle in
              rw (e, settle) (rw k (rw j (rw i (seek-All xid v p h, seek-Holds xid v h))))
        ]
      ]
    ]
  ]

  pub check_window-All :
      (w : List Reply) (xid xid_rep : ℕ)
      → P (reply_t xid)
      → All P w
      → All P (check_window w xid xid_rep).1 × Holds xid (check_window w xid xid_rep).0
  unfolding check_window
  check_window-All w xid r p h = settle-All xid (drop_acked r w) p (drop_acked-All r w h)

  pub store_reply-All :
      (w v : List Reply) (xid : ℕ) (buf : Bytes)
      → P (record { xid = xid; cb_present = true; buf = buf })
      → All P w
      → store_reply xid buf w ≡ some v
      → All P v
  unfolding store_reply
  store_reply-All [] v xid buf p h e = absurd (ground arith)
  store_reply-All (x ∷ w) v xid buf p (a, b) e = elim (Bool-cases (nat_eq x.xid xid)) [
    | inl k ↦
        let here : P (record x { cb_present = true; buf = buf }) =
          subst (λ (i : ℕ). P (record { xid = i; cb_present = true; buf = buf })) (ground arith)
            p in
        subst_some (All P) {a = record x { cb_present = true; buf = buf } ∷ w} {b = v} (here, b)
          (ground arith)
    | inr k ↦ elim (Option-cases (store_reply xid buf w)) [
      | inl j ↦ absurd (ground arith)
      | inr (u, j) ↦
          subst_some (All P) {a = x ∷ u} {b = v} (a, store_reply-All w u xid buf p b j)
            (ground arith)
    ]
  ]

-- A stored reply changes no number.
pub xids-store_reply :
    (w v : List Reply) (xid : ℕ) (buf : Bytes) → store_reply xid buf w ≡ some v → xids v ≡ xids w
unfolding store_reply
xids-store_reply [] v xid buf e = absurd (ground arith)
xids-store_reply (x ∷ w) v xid buf e = elim (Bool-cases (nat_eq x.xid xid)) [
  | inl k ↦
      subst_some (λ (l : List Reply). xids l ≡ xids (x ∷ w))
        {a = record x { cb_present = true; buf = buf } ∷ w} {b = v} refl (ground arith)
  | inr k ↦ elim (Option-cases (store_reply xid buf w)) [
    | inl j ↦ absurd (ground arith)
    | inr (u, j) ↦
        subst_some (λ (l : List Reply). xids l ≡ xids (x ∷ w)) {a = x ∷ u} {b = v}
          (ap (λ (l : List ℕ). x.xid ∷ l) (xids-store_reply w u xid buf j)) (ground arith)
  ]
]
