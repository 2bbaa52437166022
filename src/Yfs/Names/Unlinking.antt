-- ===== src/Yfs/Names/Unlinking.antt =====
-- What the loop of unlink of yfs_client.cc makes of the text of a directory.
use distributed_system_lab.Base.{
  ℕ, zero, suc, ◌≡◌, ◌≢◌, refl, sym, ap, ◌∙◌, inl, inr, Bool, true, false, not, ◌||◌, some, List,
  [], ◌∷◌, ◌++◌, ltb, if◌then◌else◌, All, arith, Bool-cases,
}
use mathlib.Core.List.{append_assoc}
use distributed_system_lab.Base.Bytes.{Bytes}
use distributed_system_lab.Paxos.Log.RoundTrip.{IsWord}
use distributed_system_lab.Config.{members}
use distributed_system_lab.Yfs.Names.Words.{
  members-added, members-alone, members-empty, members-IsWord,
}
use distributed_system_lab.Yfs.Names.Entries.{is_named_same}
use distributed_system_lab.Yfs.Names.{read_entry, is_named, find, isdir, Unlinked, unlink_loop}

-- The entries that stay.
abbrev pub stays : Bytes → Bytes → Bool
stays name file = not (is_named name file) || isdir (read_entry file).0

unfoldable pub kept : Bytes → List Bytes → List Bytes
kept name [] = []
kept name (file ∷ files) =
    let rest = kept name files in if stays name file then file ∷ rest else rest

-- The text after an entry that stays.
abbrev appended : Unlinked → ℕ → Bytes → Unlinked
appended u count file = record u { ost = u.ost ++ ((if ltb 0 count then 32 ∷ [] else []) ++ file) }

appended-members :
    (u : Unlinked) (count : ℕ) (file : Bytes) (ws : List Bytes)
    → members u.ost ≡ ws
    → (count ≡ 0 → (u.ost ≡ []) × (ws ≡ []))
    → IsWord file
    → members (appended u count file).ost ≡ ws ++ file ∷ []
appended-members u zero file ws e first w =
    ap (λ (l : Bytes). members (l ++ file)) (first refl).0
    ∙ members-alone file w
    ∙ ap (λ (l : List Bytes). l ++ file ∷ []) (sym (first refl).1)
appended-members u (suc count) file ws e first w =
    ap (λ (b : Bool). members (u.ost ++ ((if b then 32 ∷ [] else []) ++ file))) positive
    ∙ members-added u.ost file w
    ∙ ap (λ (l : List Bytes). l ++ file ∷ []) e
  where
    positive : ltb 0 (suc count) ≡ true
    positive = ground arith

unlink_loop-members :
    (name : Bytes) (files : List Bytes) (count : ℕ) (u : Unlinked) (ws : List Bytes)
    → members u.ost ≡ ws
    → (count ≡ 0 → (u.ost ≡ []) × (ws ≡ []))
    → All IsWord files
    → members (unlink_loop name files count u).ost ≡ ws ++ kept name files
unfolding unlink_loop kept
unlink_loop-members name [] count u ws e first h = e ∙ sym (append_nil ws)
  where
    append_nil : (l : List Bytes) → l ++ [] ≡ l
    append_nil [] = refl
    append_nil (x ∷ l) = ap (λ (t : List Bytes). x ∷ t) (append_nil l)
unlink_loop-members name (file ∷ files) count u ws e first (w, h) =
    elim (Bool-cases (stays name file)) [
      | inl k ↦ rw k (
          unlink_loop-members name files (suc count) (appended u count file) (ws ++ file ∷ [])
            (appended-members u count file ws e first w) (λ z. absurd (omega (arith, z))) h
          ∙ append_assoc ws (file ∷ []) (kept name files))
      | inr k ↦ rw k (
          unlink_loop-members name files count
            (record u { found = true; inum = (read_entry file).0 }) ws e first h)
    ]

-- The text that unlink writes has the entries that stay.
pub unlinked-members :
    (name d : Bytes) (inum : ℕ)
    → members (unlink_loop name (members d) 0 (record { ost = []; found = false; inum = inum })).ost
      ≡ kept name (members d)
unlinked-members name d inum =
    unlink_loop-members name (members d) 0 (record { ost = []; found = false; inum = inum }) []
      members-empty (λ z. (refl, refl)) (members-IsWord d)

-- The number that is found is that of a file.
pub unlink_loop-isdir :
    (name : Bytes) (files : List Bytes) (count : ℕ) (u : Unlinked)
    → (u.found ≡ true → isdir u.inum ≡ false)
    → (unlink_loop name files count u).found ≡ true
    → isdir (unlink_loop name files count u).inum ≡ false
unfolding unlink_loop
unlink_loop-isdir name [] count u h = h
unlink_loop-isdir name (file ∷ files) count u h = elim (Bool-cases (stays name file)) [
  | inl k ↦ rw k (λ f. unlink_loop-isdir name files (suc count) (appended u count file) h f)
  | inr k ↦ rw k (λ f.
      unlink_loop-isdir name files count (record u { found = true; inum = (read_entry file).0 })
        (λ z. (ground (arith, k))) f)
]

unlink_loop-stays_found :
    (name : Bytes) (files : List Bytes) (count : ℕ) (u : Unlinked)
    → u.found ≡ true
    → (unlink_loop name files count u).found ≡ true
unfolding unlink_loop
unlink_loop-stays_found name [] count u h = h
unlink_loop-stays_found name (file ∷ files) count u h = elim (Bool-cases (stays name file)) [
  | inl k ↦ rw k (unlink_loop-stays_found name files (suc count) (appended u count file) h)
  | inr k ↦ rw k (
      unlink_loop-stays_found name files count
        (record u { found = true; inum = (read_entry file).0 }) refl)
]

-- A file that a lookup would find is found.
pub unlink_loop-found :
    (name : Bytes) (files : List Bytes) (count : ℕ) (u : Unlinked) (n : ℕ)
    → find name files ≡ some n
    → isdir n ≡ false
    → (unlink_loop name files count u).found ≡ true
unfolding unlink_loop find
unlink_loop-found name [] count u n e h = absurd (ground arith)
unlink_loop-found name (file ∷ files) count u n e h = elim (Bool-cases (stays name file)) [
  | inr k ↦ rw k (
      unlink_loop-stays_found name files count
        (record u { found = true; inum = (read_entry file).0 }) refl)
  | inl k ↦ rw k (unlink_loop-found name files (suc count) (appended u count file) n (passed k) h)
]
  where
    passed : stays name file ≡ true → find name files ≡ some n
    passed k = elim (Bool-cases (is_named name file)) [
      | inr j ↦ ground (arith, k, j, e)
      | inl j ↦
          (let same : (read_entry file).0 ≡ n = ground (arith, e, j) in
            let dir : isdir n ≡ true = ap isdir (sym same) ∙ ground (arith, k, j) in
            absurd (ground (arith, dir, h)))
    ]

-- Other names are found as before.
pub find-kept :
    (name other : Bytes) (files : List Bytes)
    → name ≢ other
    → find other (kept name files) ≡ find other files
unfolding find kept
find-kept name other [] ne = refl
find-kept name other (file ∷ files) ne = elim (Bool-cases (stays name file)) [
  | inl k ↦ rw k (elim (Bool-cases (is_named other file)) [
    | inl j ↦ rw (j, find) refl
    | inr j ↦ rw (j, find) (find-kept name other files ne)
  ])
  | inr k ↦ rw k (elim (Bool-cases (is_named other file)) [
    | inl j ↦ absurd (ne (is_named_same name other file (ground (arith, k)) j))
    | inr j ↦ rw (j, find) (find-kept name other files ne)
  ])
]

-- Under the name itself only a directory is left.
pub find-kept_self :
    (name : Bytes) (files : List Bytes) (n : ℕ)
    → find name (kept name files) ≡ some n
    → isdir n ≡ true
unfolding find kept
find-kept_self name [] n e = absurd (ground arith)
find-kept_self name (file ∷ files) n e = elim (Bool-cases (stays name file)) [
  | inr k ↦ find-kept_self name files n (ground (arith, k))
  | inl k ↦ elim (Bool-cases (is_named name file)) [
    | inr j ↦ find-kept_self name files n (ground (arith, k, j))
    | inl j ↦
        (let same : (read_entry file).0 ≡ n = ground (arith, k, j) in
          ap isdir (sym same) ∙ ground (arith, k, j))
  ]
]
