-- ===== src/Tree/Host.antt =====
-- What containers/rbtree calls of ac-common and of its backend: the integer conversions, `TBlob::Cmp`,
-- and more bytes behind those that are there.
use cxx_library.Prelude.{ℕ, ◌^◌, ◌<◌, ◌≡◌, ◌≢◌, List, length, Ordering}

pub record Host : Type 0 where
  -- `hton` and `ntoh` of a `uint64_t`
  pub hton : ℕ → ℕ
  pub ntoh : ℕ → ℕ
  -- `hton` of a `uint32_t` and of a `uint16_t`
  pub hton32 : ℕ → ℕ
  pub hton16 : ℕ → ℕ
  -- the sign of `Cmp`, its second argument the blob that is compared with
  pub cmp : List ℕ → List ℕ → Ordering
  -- what is behind the bytes after `Reserve(size)`
  pub fresh : ℕ → List ℕ → List ℕ
  pub hton-lt : (n : ℕ) → n < 2 ^ 64 → hton n < 2 ^ 64
  pub ntoh-hton : (n : ℕ) → n < 2 ^ 64 → ntoh (hton n) ≡ n
  pub length-fresh : (n : ℕ) (b : List ℕ) → length (fresh n b) ≡ n
  pub cmp-self : (a : List ℕ) → cmp a a ≡ Ordering.eq
  pub cmp-flip : (a b : List ℕ) → cmp a b ≡ Ordering.gt → cmp b a ≡ Ordering.lt
  pub cmp-trans :
      (a b c : List ℕ) → cmp a b ≡ Ordering.lt → cmp b c ≡ Ordering.lt → cmp a c ≡ Ordering.lt
  -- A key that is not below another is above all that are below the other.
  pub cmp-above :
      (a b c : List ℕ) → cmp b c ≡ Ordering.lt → cmp a c ≢ Ordering.lt → cmp a b ≡ Ordering.gt
  -- Only blobs of the same size are equal.
  pub cmp-length : (a b : List ℕ) → cmp a b ≡ Ordering.eq → length a ≡ length b
