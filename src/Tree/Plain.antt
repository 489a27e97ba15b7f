-- ===== src/Tree/Plain.antt =====
-- A host of containers/rbtree: eight bytes swapped, blobs compared by their sizes first, and zeros
-- behind the bytes that are there.
use cxx_library.Prelude.{
  ℕ, zero, suc, ◌+◌, ◌*◌, ◌≡◌, ◌≢◌, refl, ap, List, [], ◌∷◌, length, ltb, ◌==◌, if◌then◌else◌,
  Ordering, arith,
}
use cxx_library.HostOrder.{swap16, swap32, swap64}
use cxx_library.HashMap.Plain.{swap64-lt, swap64-swap64}
use cxx_library.Tree.Host.{Host}

abbrev pub code : List ℕ → ℕ
code [] = 0
code (x ∷ xs) = x + 1 + 257 * code xs

-- The order of two blobs of some sizes, by their sizes and then by their codes.
abbrev pub order : ℕ → ℕ → ℕ → ℕ → Ordering
order m a n b =
    if ltb m n
    then Ordering.lt
    else if ltb n m
    then Ordering.gt
    else if ltb a b
    then Ordering.lt
    else if a == b
    then Ordering.eq
    else Ordering.gt

pub order_self : (m a : ℕ) → order m a m a ≡ Ordering.eq
order_self m a = ground arith

pub order-flip : (m a n b : ℕ) → order m a n b ≡ Ordering.gt → order n b m a ≡ Ordering.lt
order-flip m a n b e = ground arith

pub order_trans :
    (m a n b k c : ℕ)
    → order m a n b ≡ Ordering.lt
    → order n b k c ≡ Ordering.lt
    → order m a k c ≡ Ordering.lt
order_trans m a n b k c e f = ground arith

pub order-above :
    (m a n b k c : ℕ)
    → order n b k c ≡ Ordering.lt
    → order m a k c ≢ Ordering.lt
    → order m a n b ≡ Ordering.gt
order-above m a n b k c e f = ground arith

pub order-length : (m a n b : ℕ) → order m a n b ≡ Ordering.eq → m ≡ n
order-length m a n b e = ground arith

abbrev pub zeros : ℕ → List ℕ
zeros zero = []
zeros (suc n) = 0 ∷ zeros n

pub length-zeros : (n : ℕ) → length (zeros n) ≡ n
length-zeros zero = refl
length-zeros (suc n) = ap suc (length-zeros n)

abbrev pub plain_host : Host
plain_host = record {
  hton = swap64;
  ntoh = swap64;
  hton32 = swap32;
  hton16 = swap16;
  cmp = λ a b. order (length a) (code a) (length b) (code b);
  fresh = λ n b. zeros n;
  hton-lt = swap64-lt;
  ntoh-hton = swap64-swap64;
  length-fresh = λ n b. length-zeros n;
  cmp-self = λ a. order_self (length a) (code a);
  cmp-flip = λ a b. order-flip (length a) (code a) (length b) (code b);
  cmp-trans = λ a b c. order_trans (length a) (code a) (length b) (code b) (length c) (code c);
  cmp-above = λ a b c. order-above (length a) (code a) (length b) (code b) (length c) (code c);
  cmp-length = λ a b. order-length (length a) (code a) (length b) (code b);
}
