-- ===== src/Rpc/Server/Window.antt =====
-- The window of replies of rpc.cc, as the ascending list of the numbers in it.
use distributed_system_lab.Base.{
  ℕ, ◌≤◌, ◌<◌, ◌≡◌, refl, sym, ap, subst, ◌∙◌, ◌⊎◌, inl, inr, Bool, true, false, not, ◌||◌, Option,
  none, some, List, [], ◌∷◌, ◌++◌, ltb, nat_eq, if◌then◌else◌, arith, Bool-cases,
}
use distributed_system_lab.Rpc.Numbers.{
  has, Above, IsAscending, last, seen, Above-weaken, has-Above, has-append, last-Above,
  IsAscending-append, has-last, last_none,
}
use distributed_system_lab.Rpc.Server.{Reply, reply_t, RpcState, new, forgotten, back, seek, settle}
use distributed_system_lab.Rpc.Server.Acked.{xids, is_new, xids-append, back-last}

seek-new :
    (xid : ℕ) (w : List Reply)
    → IsAscending (xids w)
    → is_new (seek xid w).0 ≡ not (has xid (xids w))
unfolding seek IsAscending has
seek-new xid [] h = refl
seek-new xid (x ∷ w) (a, b) = ground (arith, seek-new xid w b, has-Above x.xid xid (xids w) a)

seek-has :
    (xid e : ℕ) (w : List Reply) → has e (xids (seek xid w).1) ≡ (has e (xids w) || nat_eq xid e)
unfolding seek has reply_t
seek-has xid e [] = ground arith
seek-has xid e (x ∷ w) = elim (Bool-cases (ltb x.xid xid)) [
  | inl k ↦ rw (k, seek) (ground (arith, seek-has xid e w))
  | inr k ↦ elim (Bool-cases (nat_eq x.xid xid)) [
    | inl j ↦ rw (k, seek) (rw (j, seek) (ground arith))
    | inr j ↦ rw (k, seek) (rw (j, seek) (ground arith))
  ]
]

seek-Above :
    (k xid : ℕ) (w : List Reply) → Above k (xids w) → k < xid → Above k (xids (seek xid w).1)
unfolding seek Above reply_t
seek-Above k xid [] a h = (h, tt)
seek-Above k xid (x ∷ w) (a, b) h = elim (Bool-cases (ltb x.xid xid)) [
  | inl e ↦ rw (e, seek) (a, seek-Above k xid w b h)
  | inr e ↦ elim (Bool-cases (nat_eq x.xid xid)) [
    | inl j ↦ rw (e, seek) (rw (j, seek) (a, b))
    | inr j ↦ rw (e, seek) (rw (j, seek) (h, (a, b)))
  ]
]

seek-IsAscending :
    (xid : ℕ) (w : List Reply) → IsAscending (xids w) → IsAscending (xids (seek xid w).1)
unfolding seek IsAscending reply_t
seek-IsAscending xid [] h = (tt, tt)
seek-IsAscending xid (x ∷ w) (a, b) = elim (Bool-cases (ltb x.xid xid)) [
  | inl e ↦ rw (e, seek) (seek-Above x.xid xid w a (ground arith), seek-IsAscending xid w b)
  | inr e ↦ elim (Bool-cases (nat_eq x.xid xid)) [
    | inl j ↦ rw (e, seek) (rw (j, seek) (a, b))
    | inr j ↦
        rw (e, seek)
          (rw (j, seek) ((ground arith, Above-weaken xid x.xid (xids w) (ground arith) a), (a, b)))
  ]
]

-- The number is placed in the window that is left: what a new request leaves.
pub record Placed (v : List Reply) (xid : ℕ) (t : List Reply) : Type 0 where
  pub unseen : seen xid (xids v) ≡ false
  pub ascending : IsAscending (xids t)
  pub present : has xid (xids t) ≡ true
  pub kept : (e : ℕ) → seen e (xids v) ≡ true → seen e (xids t) ≡ true

append-Placed :
    (v : List Reply) (m xid : ℕ)
    → IsAscending (xids v)
    → last (xids v) ≡ some m
    → m < xid
    → Placed v xid (v ++ reply_t xid ∷ [])
append-Placed [] m xid h k lt = absurd (unfold last in ground arith)
append-Placed (x ∷ v) m xid h k lt = record {
  unseen = unfold seen in ground (arith, has-last m xid (x.xid ∷ xids v) h k lt, x_below);
  ascending =
      subst IsAscending (sym (xids-append (x ∷ v) xid))
        (IsAscending-append m xid (x.xid ∷ xids v) h k lt);
  present =
      ap (has xid) (xids-append (x ∷ v) xid) ∙ ground (arith, has-append xid xid (x.xid ∷ xids v));
  kept = λ e s.
      unfold seen in
      ground (arith, ap (has e) (xids-append (x ∷ v) xid), has-append e xid (x.xid ∷ xids v));
}
  where
    x_below : x.xid ≤ m
    x_below = unfold IsAscending in last-Above x.xid m (xids v) h.0 h.1 k

seek-Placed :
    (x : Reply) (v : List Reply) (xid : ℕ)
    → IsAscending (xids (x ∷ v))
    → ltb xid x.xid ≡ false
    → is_new (seek xid (x ∷ v)).0 ≡ true
    → Placed (x ∷ v) xid (seek xid (x ∷ v)).1
seek-Placed x v xid h ge fresh = record {
  unseen = unfold seen in ground (arith, absent);
  ascending = seek-IsAscending xid (x ∷ v) h;
  present = ground (arith, seek-has xid xid (x ∷ v));
  kept = λ e s. kept_in e s;
}
  where
    absent : has xid (xids (x ∷ v)) ≡ false
    absent = ground (arith, seek-new xid (x ∷ v) h)

    above : ltb x.xid xid ≡ true
    above = unfold has in ground (arith, absent)

    kept_in : (e : ℕ) → seen e (xids (x ∷ v)) ≡ true → seen e (xids (seek xid (x ∷ v)).1) ≡ true
    kept_in e s =
        unfold seek in rw (above, seek) (unfold seen has in ground (arith, seek-has xid e v))

-- A request that is not new leaves the window as it is.
seek-old : (xid : ℕ) (w : List Reply) → is_new (seek xid w).0 ≡ false → (seek xid w).1 ≡ w
unfolding seek
seek-old xid [] e = absurd (ground arith)
seek-old xid (x ∷ w) e = elim (Bool-cases (ltb x.xid xid)) [
  | inl k ↦ rw (k, seek) (ap (λ (l : List Reply). x ∷ l) (seek-old xid w (ground arith)))
  | inr k ↦ elim (Bool-cases (nat_eq x.xid xid)) [
    | inl j ↦ rw (k, seek) (rw (j, seek) refl)
    | inr j ↦ absurd (ground arith)
  ]
]

-- The two ways in which a check ends: the request is new, and placed in the window, or the window
-- stays as it is.
abbrev pub Settled : List Reply → ℕ → RpcState × List Reply → Type 0
Settled v xid t =
    ((is_new t.0 ≡ true) × Placed v xid t.1 × (v ≡ [] → t.1 ≡ reply_t xid ∷ []))
    ⊎ ((is_new t.0 ≡ false) × (t.1 ≡ v))

alone-Placed : (xid : ℕ) → Placed [] xid (reply_t xid ∷ [])
unfolding seen IsAscending Above has reply_t
alone-Placed xid = record {
  unseen = refl;
  ascending = (tt, tt);
  present = ground arith;
  kept = λ e s. absurd (ground arith);
}

pub settle-Settled :
    (v : List Reply) (xid : ℕ) → IsAscending (xids v) → Settled v xid (settle xid v)
settle-Settled [] xid h = unfold settle in inl (refl, alone-Placed xid, λ e. refl)
settle-Settled (x ∷ v) xid h = go (last (xids (x ∷ v))) refl
  where
    found :
        (b : Bool)
        → is_new (seek xid (x ∷ v)).0 ≡ b
        → ltb xid x.xid ≡ false
        → Settled (x ∷ v) xid (seek xid (x ∷ v))
    found true e ge = inl (e, seek-Placed x v xid h ge e, λ z. absurd (ground arith))
    found false e ge = inr (e, seek-old xid (x ∷ v) e)

    step :
        (m : ℕ)
        → back (x ∷ v) ≡ some m
        → settle xid (x ∷ v) ≡ (
            if ltb m xid
            then (new, (x ∷ v) ++ reply_t xid ∷ [])
            else if ltb xid x.xid
            then (forgotten, x ∷ v)
            else seek xid (x ∷ v))
    step m e = unfold settle in rw (e, settle) refl

    go : (m : Option ℕ) → last (xids (x ∷ v)) ≡ m → Settled (x ∷ v) xid (settle xid (x ∷ v))
    go none e = absurd (last_none x.xid (xids v) e)
    go (some m) e = rw (step m (back-last (x ∷ v) ∙ e)) (elim (Bool-cases (ltb m xid)) [
      | inl k ↦
          rw k
            (inl (refl, append-Placed (x ∷ v) m xid h e (ground arith), λ z. absurd (ground arith)))
      | inr k ↦ rw k (elim (Bool-cases (ltb xid x.xid)) [
        | inl j ↦ rw j (inr (refl, refl))
        | inr j ↦ rw j (found (is_new (seek xid (x ∷ v)).0) refl j)
      ])
    ])
