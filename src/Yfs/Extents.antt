-- ===== src/Yfs/Extents.antt =====
-- The extents as yfs_client.cc uses them: the operations of `class extent_client` on a state, and
-- what they promise of the contents.
pub mod Cache
use distributed_system_lab.Base.{
  ℕ, ◌≡◌, ◌≢◌, Bool, true, false, Option, none, some, nat_eq, if◌then◌else◌,
}
use distributed_system_lab.Base.Bytes.{Bytes}
use distributed_system_lab.Extent.{Attr, Status, ok}
use distributed_system_lab.Extent.Client.View.{Answers}

pub record Extents (S : Type 0) : Type 0 where
  pub get : S → ℕ → Bytes → S × Status × Bytes
  pub getattr : S → ℕ → Attr → S × Status × Attr
  pub put : S → ℕ → Bytes → S × Status
  pub remove : S → ℕ → S × Status

-- What holds between the operations: a get answers the content and changes none, a put succeeds
-- and changes that of its extent, and a removal changes none of another extent.
pub record ExtentLaws {S : Type 0} (e : Extents S) : Type 1 where
  pub IsGood : S → Type 0
  pub content : S → ℕ → Option Bytes
  pub get-IsGood : (s : S) (id : ℕ) (buf : Bytes) → IsGood s → IsGood (e.get s id buf).0
  pub get-content :
      (s : S) (id : ℕ) (buf : Bytes) (j : ℕ) → IsGood s → content (e.get s id buf).0 j ≡ content s j
  pub get-Answers :
      (s : S) (id : ℕ) (buf : Bytes)
      → IsGood s
      → Answers (content s id) (e.get s id buf).1 (e.get s id buf).2
  pub put-IsGood : (s : S) (id : ℕ) (buf : Bytes) → IsGood s → IsGood (e.put s id buf).0
  pub put_ok : (s : S) (id : ℕ) (buf : Bytes) → (e.put s id buf).1 ≡ ok
  pub put-content :
      (s : S) (id : ℕ) (buf : Bytes) (j : ℕ)
      → IsGood s
      → content (e.put s id buf).0 j ≡ (if nat_eq id j then some buf else content s j)
  pub remove-IsGood : (s : S) (id : ℕ) → IsGood s → IsGood (e.remove s id).0
  pub remove_ok : (s : S) (id : ℕ) → (e.remove s id).1 ≡ ok
  pub remove-content :
      (s : S) (id j : ℕ) → IsGood s → id ≢ j → content (e.remove s id).0 j ≡ content s j
