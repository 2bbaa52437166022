-- ===== src/Yfs/Client/Content.antt =====
-- What write and setsize of yfs_client.cc make of the content of a file.
use distributed_system_lab.Base.{
  ℕ, zero, suc, ◌+◌, ◌-◌, ◌/◌, ◌≤◌, ◌<◌, ◌≡◌, refl, sym, ap, ◌∙◌, inl, inr, true, false, some, [],
  ◌∷◌, ◌++◌, ltb, leb, if◌then◌else◌, length, length-append, get_elem?, arith, Bool-cases,
}
use mathlib.Core.List.{append_assoc}
use distributed_system_lab.Base.Bytes.{Bytes}
use distributed_system_lab.Yfs.Client.{take, drop, zeros, overwrite, extend, resize}
use distributed_system_lab.Yfs.Client.Strings.{
  length-take, length-zeros, get_elem?-append, get_elem?-take, get_elem?-drop, get_elem?-zeros,
  get_elem?_beyond,
}

-- The bytes before the offset.
abbrev prefix : Bytes → ℕ → Bytes
prefix content off =
    if leb off (length content) then take off content else content ++ zeros (off - length content)

abbrev suffix : Bytes → ℕ → Bytes
suffix content n = if ltb n (length content) then drop n content else []

length-prefix : (content : Bytes) (off : ℕ) → length (prefix content off) ≡ off
length-prefix content off = elim (Bool-cases (leb off (length content))) [
  | inl e ↦ rw e (ground (arith, length-take off content, e))
  | inr e ↦ rw e (
      ground (
        arith,
        length-append content (zeros (off - length content)),
        length-zeros (off - length content),
        e,
      ))
]

prefix-get_elem? :
    (content : Bytes) (off i : ℕ)
    → i < off
    → get_elem? (prefix content off) i
      ≡ (if ltb i (length content) then get_elem? content i else some 0)
prefix-get_elem? content off i h = elim (Bool-cases (leb off (length content))) [
  | inl e ↦ rw e (ground (arith, get_elem?-take off i content h, e))
  | inr e ↦ rw e (elim (Bool-cases (ltb i (length content))) [
    | inl f ↦ get_elem?-append content (zeros (off - length content)) i ∙ rw f refl
    | inr f ↦
        get_elem?-append content (zeros (off - length content)) i
        ∙ rw f (get_elem?-zeros (off - length content) (i - length content) (ground arith))
  ])
]

suffix-get_elem? :
    (content : Bytes) (n i : ℕ) → get_elem? (suffix content n) i ≡ get_elem? content (n + i)
suffix-get_elem? content n i = elim (Bool-cases (ltb n (length content))) [
  | inl e ↦ rw e (get_elem?-drop n i content)
  | inr e ↦ rw e (sym (get_elem?_beyond content (n + i) (ground arith)))
]

-- After a write of `size` bytes at `off`, a byte before the offset is what it was, or a zero behind
-- the old end; the bytes from the offset on are those of the buffer; and behind them all is as it
-- was.
pub overwrite-get_elem? :
    (content : Bytes) (size off : ℕ) (buf : Bytes) (i : ℕ)
    → size ≤ length buf
    → get_elem? (overwrite content size off buf) i ≡ (
        if ltb i off
        then (if ltb i (length content) then get_elem? content i else some 0)
        else (if ltb i (off + size) then get_elem? buf (i - off) else get_elem? content i))
unfolding overwrite
overwrite-get_elem? content size off buf i h = elim (Bool-cases (ltb i off)) [
  | inl e ↦
      get_elem?-append (prefix content off ++ take size buf) (suffix content (off + size)) i
      ∙ whole (ground (arith, total, e))
      ∙ get_elem?-append (prefix content off) (take size buf) i
      ∙ start (ground (arith, length-prefix content off, e))
      ∙ prefix-get_elem? content off i (ground arith)
      ∙ rw e refl
  | inr e ↦ elim (Bool-cases (ltb i (off + size))) [
    | inl f ↦
        get_elem?-append (prefix content off ++ take size buf) (suffix content (off + size)) i
        ∙ whole (ground (arith, total, f))
        ∙ get_elem?-append (prefix content off) (take size buf) i
        ∙ middle (ground (arith, length-prefix content off, e))
        ∙ get_elem?-take size (i - off) buf (ground arith)
        ∙ rw e (rw f refl)
    | inr f ↦
        get_elem?-append (prefix content off ++ take size buf) (suffix content (off + size)) i
        ∙ ending (ground (arith, total, f))
        ∙ suffix-get_elem? content (off + size) (i - (off + size))
        ∙ ap (get_elem? content) (back f)
        ∙ rw e (rw f refl)
  ]
]
  where
    total : length (prefix content off ++ take size buf) ≡ off + size
    total = ground (
      arith,
      length-append (prefix content off) (take size buf),
      length-prefix content off,
      length-take size buf,
      h,
    )

    back : ltb i (off + size) ≡ false → off + size + (i - (off + size)) ≡ i
    back k = ground (arith, k)

    whole :
        ltb i (length (prefix content off ++ take size buf)) ≡ true
        → (if ltb i (length (prefix content off ++ take size buf))
            then get_elem? (prefix content off ++ take size buf) i
            else get_elem?
                (suffix content (off + size))
                (i - length (prefix content off ++ take size buf)))
          ≡ get_elem? (prefix content off ++ take size buf) i
    whole k = rw k refl

    start :
        ltb i (length (prefix content off)) ≡ true
        → (if ltb i (length (prefix content off))
            then get_elem? (prefix content off) i
            else get_elem? (take size buf) (i - length (prefix content off)))
          ≡ get_elem? (prefix content off) i
    start k = rw k refl

    middle :
        ltb i (length (prefix content off)) ≡ false
        → (if ltb i (length (prefix content off))
            then get_elem? (prefix content off) i
            else get_elem? (take size buf) (i - length (prefix content off)))
          ≡ get_elem? (take size buf) (i - off)
    middle k = rw k (ap (λ (n : ℕ). get_elem? (take size buf) (i - n)) (length-prefix content off))

    ending :
        ltb i (length (prefix content off ++ take size buf)) ≡ false
        → (if ltb i (length (prefix content off ++ take size buf))
            then get_elem? (prefix content off ++ take size buf) i
            else get_elem?
                (suffix content (off + size))
                (i - length (prefix content off ++ take size buf)))
          ≡ get_elem? (suffix content (off + size)) (i - (off + size))
    ending k = rw k (ap (λ (n : ℕ). get_elem? (suffix content (off + size)) (i - n)) total)

drop-append : (a b : Bytes) → drop (length a) (a ++ b) ≡ b
unfolding drop
drop-append [] b = refl
drop-append (c ∷ a) b = drop-append a b

take-append : (a b : Bytes) → take (length a) (a ++ b) ≡ a
unfolding take
take-append [] b = refl
take-append (c ∷ a) b = ap (λ (l : Bytes). c ∷ l) (take-append a b)

-- The bytes that were written are there.
pub take-drop-overwrite :
    (content : Bytes) (size off : ℕ) (buf : Bytes)
    → size ≤ length buf
    → take size (drop off (overwrite content size off buf)) ≡ take size buf
unfolding overwrite
take-drop-overwrite content size off buf h =
    ap (λ (l : Bytes). take size (drop off l))
      (append_assoc (prefix content off) (take size buf) (suffix content (off + size)))
    ∙ ap
        (λ (n : ℕ).
          take size (drop n (prefix content off ++ (take size buf ++ suffix content (off + size)))))
        (sym (length-prefix content off))
    ∙ ap (take size)
        (drop-append (prefix content off) (take size buf ++ suffix content (off + size)))
    ∙ ap (λ (n : ℕ). take n (take size buf ++ suffix content (off + size))) (sym taken)
    ∙ take-append (take size buf) (suffix content (off + size))
  where
    taken : length (take size buf) ≡ size
    taken = ground (arith, length-take size buf, h)

pub length-overwrite :
    (content : Bytes) (size off : ℕ) (buf : Bytes)
    → size ≤ length buf
    → off + size ≤ length (overwrite content size off buf)
unfolding overwrite
length-overwrite content size off buf h = ground (
  arith,
  length-append (prefix content off ++ take size buf) (suffix content (off + size)),
  length-append (prefix content off) (take size buf),
  length-prefix content off,
  length-take size buf,
  h,
)

-- The loop of setsize, when it has run `i` times.
length-extend :
    (fuel i size : ℕ) (buf : Bytes)
    → size < fuel + length buf + i
    → length (extend fuel i size buf) ≡ (
        if ltb i (size - length buf)
        then length buf + (size - length buf - i + 1) / 2
        else length buf)
unfolding extend
length-extend zero i size buf h = ground (arith, h)
length-extend (suc fuel) i size buf h = elim (Bool-cases (ltb i (size - length buf))) [
  | inr e ↦ rw (e, extend) refl
  | inl e ↦
      rw (e, extend)
        (ground (
          arith,
          e,
          length-append buf (32 ∷ []),
          length-extend fuel (suc i) size (buf ++ 32 ∷ [])
              (omega (arith, h, length-append buf (32 ∷ []))),
        ))
]

-- setsize shortens a content to the size that it is given; but it makes a content of `n` bytes
-- longer only by half of what is missing, rounded up.
pub length-resize :
    (buf : Bytes) (size : ℕ)
    → length (resize buf size)
      ≡ (if ltb size (length buf) then size else length buf + (size - length buf + 1) / 2)
unfolding resize
length-resize buf size = elim (Bool-cases (ltb size (length buf))) [
  | inl e ↦ rw e (ground (arith, length-take size buf, e))
  | inr e ↦ rw e (ground (arith, e, length-extend (suc size) 0 size buf (omega arith)))
]
