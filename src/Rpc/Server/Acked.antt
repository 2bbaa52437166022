-- ===== src/Rpc/Server/Acked.antt =====
-- The numbers in a window of replies of rpc.cc, and what the acknowledged ones leave.
use distributed_system_lab.Base.{
  ℕ, ◌≤◌, ◌<◌, ◌≡◌, refl, ap, ◌∙◌, ◌⊎◌, inl, inr, Bool, true, false, List, [], ◌∷◌, ◌++◌, ltb,
  arith, Bool-cases,
}
use distributed_system_lab.Rpc.Numbers.{has, Above, IsAscending, last, seen}
use distributed_system_lab.Rpc.Server.{
  Reply, reply_t, RpcState, new, inprogress, done, forgotten, drop_acked, back,
}

abbrev pub xids : List Reply → List ℕ
xids [] = []
xids (x ∷ w) = x.xid ∷ xids w

abbrev pub is_new : RpcState → Bool
is_new new = true
is_new inprogress = false
is_new (done buf) = false
is_new forgotten = false

pub xids-append : (w : List Reply) (x : ℕ) → xids (w ++ reply_t x ∷ []) ≡ xids w ++ x ∷ []
unfolding reply_t
xids-append [] x = refl
xids-append (y ∷ w) x = ap (λ (l : List ℕ). y.xid ∷ l) (xids-append w x)

pub back-last : (w : List Reply) → back w ≡ last (xids w)
unfolding back last
back-last [] = refl
back-last (x ∷ []) = refl
back-last (x ∷ y ∷ w) = back-last (y ∷ w)

-- The numbers that the client has not acknowledged stay, and those that go are below them.
drop_acked-Above : (r k : ℕ) (w : List Reply) → Above k (xids w) → Above k (xids (drop_acked r w))
unfolding drop_acked Above
drop_acked-Above r k [] a = a
drop_acked-Above r k (x ∷ w) (a, b) = elim (Bool-cases (ltb x.xid r)) [
  | inl e ↦ rw (e, drop_acked) (drop_acked-Above r k w b)
  | inr e ↦ rw (e, drop_acked) (a, b)
]

pub drop_acked-IsAscending :
    (r : ℕ) (w : List Reply) → IsAscending (xids w) → IsAscending (xids (drop_acked r w))
unfolding drop_acked IsAscending
drop_acked-IsAscending r [] h = h
drop_acked-IsAscending r (x ∷ w) (a, b) = elim (Bool-cases (ltb x.xid r)) [
  | inl e ↦ rw (e, drop_acked) (drop_acked-IsAscending r w b)
  | inr e ↦ rw (e, drop_acked) (a, b)
]

-- What was seen and is not below the acknowledged number is still in the window, unless it is
-- below all of it; and the others are below a window that is not empty.
drop_acked-has : (r e : ℕ) (w : List Reply) → r ≤ e → has e (xids (drop_acked r w)) ≡ has e (xids w)
unfolding drop_acked has
drop_acked-has r e [] h = refl
drop_acked-has r e (x ∷ w) h = elim (Bool-cases (ltb x.xid r)) [
  | inl k ↦ rw (k, drop_acked) (ground (arith, drop_acked-has r e w h))
  | inr k ↦ rw (k, drop_acked) refl
]

pub has-seen : (e : ℕ) (l : List ℕ) → has e l ≡ true → seen e l ≡ true
unfolding seen has
has-seen e [] h = absurd (ground arith)
has-seen e (x ∷ l) h = ground arith

drop_acked-below :
    (r e : ℕ) (w : List Reply)
    → e < r
    → (drop_acked r w ≡ []) ⊎ (seen e (xids (drop_acked r w)) ≡ true)
unfolding drop_acked seen
drop_acked-below r e [] h = inl refl
drop_acked-below r e (x ∷ w) h = elim (Bool-cases (ltb x.xid r)) [
  | inl k ↦ rw (k, drop_acked) (drop_acked-below r e w h)
  | inr k ↦ inr (rw (k, drop_acked) (ground arith))
]

-- What was seen is seen after the acknowledged ones are gone, unless nothing is left.
pub drop_acked-seen :
    (r e : ℕ) (w : List Reply)
    → seen e (xids w) ≡ true
    → ((drop_acked r w ≡ []) × (e < r)) ⊎ (seen e (xids (drop_acked r w)) ≡ true)
unfolding seen has
drop_acked-seen r e [] h = absurd (ground arith)
drop_acked-seen r e (x ∷ w) h = elim (Bool-cases (ltb e r)) [
  | inl lt ↦ elim (drop_acked-below r e (x ∷ w) (ground arith)) [
    | inl k ↦ inl (k, ground arith)
    | inr k ↦ inr k
  ]
  | inr ge ↦ elim (Bool-cases (ltb x.xid r)) [
    | inl k ↦ inr (has-seen e _ (drop_acked-has r e (x ∷ w) (ground arith) ∙ ground arith))
    | inr k ↦ inr (unfold drop_acked in rw (k, drop_acked) h)
  ]
]
