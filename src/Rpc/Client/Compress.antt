-- ===== src/Rpc/Client/Compress.antt =====
-- The insertion and the loop at compress of update_xid_rep of rpc.cc.
use mathlib.Core.List.{append_assoc}
use distributed_system_lab.Base.{
  ℕ, zero, suc, ◌+◌, ◌≤◌, ◌<◌, ◌≡◌, ◌≢◌, inl, inr, refl, sym, ap, subst, ◌∙◌, true, false, ◌||◌,
  List, [], ◌∷◌, ◌++◌, leb, ltb, nat_eq, arith, Bool-cases, All, All-append,
}
use distributed_system_lab.Rpc.Numbers.{has, seen}
use distributed_system_lab.Rpc.Client.{front, wrap, place, pop, compress}

-- In order, from a number on; a number may stand there twice.
abbrev pub Ordered : ℕ → List ℕ → Type 0
Ordered k [] = Unit
Ordered k (x ∷ w) = (k ≤ x) × Ordered x w

-- An unsigned number.
abbrev pub Fits : ℕ → Type 0
Fits n = n < 4294967296

pub place-Ordered : (k xid : ℕ) (w : List ℕ) → k ≤ xid → Ordered k w → Ordered k (place xid w)
unfolding place
place-Ordered k xid [] h o = (h, tt)
place-Ordered k xid (x ∷ w) h (a, b) = elim (Bool-cases (ltb xid x)) [
  | inl e ↦ rw (e, place) (h, (ground arith, b))
  | inr e ↦ rw (e, place) (a, place-Ordered x xid w (ground arith) b)
]

pub has-place : (e xid : ℕ) (w : List ℕ) → has e (place xid w) ≡ (has e w || nat_eq xid e)
unfolding place has
has-place e xid [] = ground arith
has-place e xid (x ∷ w) = ground (arith, has-place e xid w)

pub place-All : (P : ℕ → Type 0) (xid : ℕ) (w : List ℕ) → P xid → All P w → All P (place xid w)
unfolding place
place-All P xid [] p h = (p, tt)
place-All P xid (x ∷ w) p (a, b) = elim (Bool-cases (ltb xid x)) [
  | inl e ↦ rw (e, place) (p, (a, b))
  | inr e ↦ rw (e, place) (a, place-All P xid w p b)
]

-- A number, and that often again.
abbrev pub run : ℕ → ℕ → List ℕ
run p zero = p ∷ []
run p (suc n) = p ∷ run p n

run-more : (p n : ℕ) → run p n ++ p ∷ [] ≡ run p (suc n)
run-more p zero = refl
run-more p (suc n) = ap (λ (l : List ℕ). p ∷ l) (run-more p n)

pop-keeps : (v p n : ℕ) → nat_eq (wrap (p + 1)) v ≡ false → pop v (run p n) ≡ run p n
unfolding pop
pop-keeps v p zero h = rw (h, pop) refl
pop-keeps v p (suc n) h = rw (h, pop) refl

pop-drops : (v p n : ℕ) → nat_eq (wrap (p + 1)) v ≡ true → pop v (run p n) ≡ []
unfolding pop
pop-drops v p zero h = rw (h, pop) refl
pop-drops v p (suc n) h = rw (h, pop) (pop-drops v p n h)

append_nil : (a : List ℕ) → a ++ [] ≡ a
append_nil [] = refl
append_nil (x ∷ a) = ap (λ (l : List ℕ). x ∷ l) (append_nil a)

-- Beyond a gap nothing is popped.
compress-gap :
    (p : ℕ) (passed w : List ℕ)
    → Ordered (p + 2) w
    → All Fits w
    → compress (p ∷ passed) w ≡ p ∷ passed ++ w
unfolding compress
compress-gap p passed [] o f = sym (append_nil (p ∷ passed))
compress-gap p passed (v ∷ w) (a, b) (c, d) =
    ap (λ (l : List ℕ). compress (l ++ v ∷ []) w) kept
    ∙ compress-gap p (passed ++ v ∷ []) w (weaken w b) d
    ∙ ap (λ (l : List ℕ). p ∷ l) (append_assoc passed (v ∷ []) w)
  where
    here : nat_eq (wrap (p + 1)) v ≡ false
    here = ground arith

    kept : pop v (p ∷ passed) ≡ p ∷ passed
    kept = unfold pop in rw (here, pop) refl

    weaken : (l : List ℕ) → Ordered v l → Ordered (p + 2) l
    weaken [] o = tt
    weaken (x ∷ l) (i, j) = (omega (arith, a, i), j)

-- What a window that starts with `first` has become.
pub record Compressed (first : ℕ) (w t : List ℕ) : Type 0 where
  pub ordered : Ordered first t
  pub not_empty : t ≢ []
  pub fits : All Fits t
  pub same : (e : ℕ) → seen e t ≡ seen e w
  pub gap : has (front t + 1) t ≡ false

has-run : (e p n : ℕ) (w : List ℕ) → has e (run p n ++ w) ≡ (nat_eq p e || has e w)
unfolding has
has-run e p zero w = refl
has-run e p (suc n) w = ground (arith, has-run e p n w)

seen-run : (e p n : ℕ) (w : List ℕ) → seen e (run p n ++ w) ≡ (leb e p || has e w)
unfolding seen has
seen-run e p zero w = ground arith
seen-run e p (suc n) w = ground (arith, has-run e p n w)

Ordered-run : (k p n : ℕ) (w : List ℕ) → k ≤ p → Ordered p w → Ordered k (run p n ++ w)
Ordered-run k p zero w h o = (h, o)
Ordered-run k p (suc n) w h o = (h, Ordered-run p p n w (omega arith) o)

has-Ordered : (k e : ℕ) (w : List ℕ) → Ordered k w → e < k → has e w ≡ false
unfolding has
has-Ordered k e [] o h = refl
has-Ordered k e (x ∷ w) (a, b) h = ground (arith, has-Ordered x e w b)

run-All : (p n : ℕ) → Fits p → All Fits (run p n)
run-All p zero h = (h, tt)
run-All p (suc n) h = (h, run-All p n h)

run-not_empty : (p n : ℕ) (w : List ℕ) → run p n ++ w ≢ []
run-not_empty p zero w e = ground arith
run-not_empty p (suc n) w e = ground arith

front-run : (p n : ℕ) (w : List ℕ) → front (run p n ++ w) ≡ p
front-run p zero w = refl
front-run p (suc n) w = refl

compress-run_gap :
    (p n : ℕ) (w : List ℕ) → Ordered (p + 2) w → All Fits w → compress (run p n) w ≡ run p n ++ w
compress-run_gap p zero w o f = compress-gap p [] w o f
compress-run_gap p (suc n) w o f = compress-gap p (run p n) w o f

-- A run at the front and a gap behind it.
gap-Compressed :
    (p n : ℕ) (w : List ℕ)
    → Fits p
    → Ordered (p + 2) w
    → Ordered p w
    → All Fits w
    → Compressed p (run p n ++ w) (run p n ++ w)
gap-Compressed p n w f o l h = record {
  ordered = Ordered-run p p n w (omega arith) l;
  not_empty = run-not_empty p n w;
  fits = All-append Fits (run p n) w (run-All p n f) h;
  same = λ e. refl;
  gap =
      ap (λ (x : ℕ). has (x + 1) (run p n ++ w)) (front-run p n w)
      ∙ ground (arith, has-run (p + 1) p n w, has-Ordered (p + 2) (p + 1) w o);
}

lower : (k j : ℕ) (l : List ℕ) → k ≤ j → Ordered j l → Ordered k l
lower k j [] h o = tt
lower k j (x ∷ l) h (i, q) = (omega (arith, h, i), q)

-- The two ways in which the loop goes on: the number is that of the run, or the next.
again-Compressed :
    (p n v : ℕ) (w t : List ℕ)
    → nat_eq p v ≡ true
    → Compressed p (run p (suc n) ++ w) t
    → Compressed p (run p n ++ v ∷ w) t
again-Compressed p n v w t e c = record {
  ordered = c.ordered;
  not_empty = c.not_empty;
  fits = c.fits;
  same = λ i.
      unfold has in ground (arith, e, c.same i, seen-run i p (suc n) w, seen-run i p n (v ∷ w));
  gap = c.gap;
}

next-Compressed :
    (p n v : ℕ) (w t : List ℕ)
    → nat_eq (p + 1) v ≡ true
    → Compressed v (run v 0 ++ w) t
    → Compressed p (run p n ++ v ∷ w) t
next-Compressed p n v w t e c = record {
  ordered = lower p v t (ground arith) c.ordered;
  not_empty = c.not_empty;
  fits = c.fits;
  same = λ i. unfold has in ground (arith, e, c.same i, seen-run i v 0 w, seen-run i p n (v ∷ w));
  gap = c.gap;
}

compress-again :
    (p n v : ℕ) (w : List ℕ)
    → Fits v
    → nat_eq p v ≡ true
    → compress (run p n) (v ∷ w) ≡ compress (run p (suc n)) w
unfolding compress
compress-again p n v w f e =
    ap (λ (l : List ℕ). compress (l ++ v ∷ []) w) (pop-keeps v p n (ground arith))
    ∙ ap (λ (x : ℕ). compress (run p n ++ x ∷ []) w) same_number
    ∙ ap (λ (l : List ℕ). compress l w) (run-more p n)
  where
    same_number : v ≡ p
    same_number = ground arith

compress-next :
    (p n v : ℕ) (w : List ℕ)
    → Fits v
    → nat_eq (p + 1) v ≡ true
    → compress (run p n) (v ∷ w) ≡ compress (run v 0) w
unfolding compress
compress-next p n v w f e =
    ap (λ (l : List ℕ). compress (l ++ v ∷ []) w) (pop-drops v p n (ground arith))

pub compress-Compressed :
    (p n : ℕ) (w : List ℕ)
    → Fits p
    → Ordered p w
    → All Fits w
    → Compressed p (run p n ++ w) (compress (run p n) w)
compress-Compressed p n [] f o h =
    subst (Compressed p (run p n ++ [])) (compress_end p n) (gap-Compressed p n [] f tt tt tt)
  where
    compress_end : (p n : ℕ) → run p n ++ [] ≡ compress (run p n) []
    compress_end p n = unfold compress in append_nil (run p n)
compress-Compressed p n (v ∷ w) f (a, b) (c, d) =
    let same = λ (o : Ordered p w). compress-Compressed p (suc n) w f o d in
    let next = compress-Compressed v 0 w c b d in
    elim (Bool-cases (nat_eq p v)) [
      | inl e ↦
          subst (Compressed p (run p n ++ v ∷ w)) (sym (compress-again p n v w c e))
            (again-Compressed p n v w _ e (same (lower p v w a b)))
      | inr e ↦ elim (Bool-cases (nat_eq (p + 1) v)) [
        | inl k ↦
            subst (Compressed p (run p n ++ v ∷ w)) (sym (compress-next p n v w c k))
              (next-Compressed p n v w _ k next)
        | inr k ↦
            subst (Compressed p (run p n ++ v ∷ w))
              (sym (compress-run_gap p n (v ∷ w) (ground arith, b) (c, d)))
              (gap-Compressed p n (v ∷ w) f (ground arith, b) (a, b) (c, d))
      ]
    ]
