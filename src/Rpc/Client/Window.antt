-- ===== src/Rpc/Client/Window.antt =====
-- What update_xid_rep of rpc.cc does to the window of the replies that the client has had.
use distributed_system_lab.Base.{
  ℕ, ◌+◌, ◌≡◌, ◌≢◌, inl, inr, refl, ◌∙◌, false, ◌||◌, List, [], ◌∷◌, leb, nat_eq, arith, Bool-cases,
  All,
}
use distributed_system_lab.Rpc.Numbers.{has, seen}
use distributed_system_lab.Rpc.Client.{front, place, compress, update_xid_rep}
use distributed_system_lab.Rpc.Client.Compress.{
  Ordered, Fits, place-Ordered, has-place, place-All, run, Compressed, compress-Compressed,
}

-- The window is never empty and in order, and the number after the first one is not in it: the
-- first number is the last one up to which there is no gap.
pub record IsWindow (w : List ℕ) : Type 0 where
  pub ordered : Ordered 0 w
  pub not_empty : w ≢ []
  pub fits : All Fits w
  pub gap : has (front w + 1) w ≡ false

-- update_xid_rep keeps the window well-formed, and adds its number and no other to those that the
-- window stands for: the numbers in it and those below its first.
pub update_xid_rep-IsWindow :
    (xid : ℕ) (w : List ℕ)
    → Fits xid
    → IsWindow w
    → IsWindow (update_xid_rep xid w)
      × ((e : ℕ) → seen e (update_xid_rep xid w) ≡ (seen e w || nat_eq xid e))
update_xid_rep-IsWindow xid [] f h = absurd (h.not_empty refl)
update_xid_rep-IsWindow xid (x ∷ w) f h = elim (Bool-cases (leb xid x)) [
  | inl e ↦
      unfold update_xid_rep in rw (e, update_xid_rep) (h, λ i. unfold seen has in ground arith)
  | inr e ↦ rw (step e) (
      wide (
        compress-Compressed x 0 (place xid w) h.fits.0
          (place-Ordered x xid w (ground arith) h.ordered.1) (place-All Fits xid w f h.fits.1)))
]
  where
    step : leb xid x ≡ false → update_xid_rep xid (x ∷ w) ≡ compress (run x 0) (place xid w)
    step e = unfold update_xid_rep place in ground (arith, e)

    wide :
        Compressed x (x ∷ place xid w) (compress (run x 0) (place xid w))
        → IsWindow (compress (run x 0) (place xid w))
          × ((e : ℕ) → seen e (compress (run x 0) (place xid w)) ≡ (seen e (x ∷ w) || nat_eq xid e))
    wide c = (
      record { ordered = bottom _ c.ordered; not_empty = c.not_empty; fits = c.fits; gap = c.gap },
      λ e. c.same e ∙ unfold seen has in ground (arith, has-place e xid w),
    )
      where
        bottom : (l : List ℕ) → Ordered x l → Ordered 0 l
        bottom [] o = tt
        bottom (y ∷ l) (i, q) = (omega arith, q)
