-- ===== src/WebSocket/Bits.antt =====
-- The bits of a frame's first two bytes, and masking, by evaluation at every byte.
use cxx_library.Prelude.{
  ℕ, zero, suc, ◌+◌, ◌%◌, ◌<◌, ◌≡◌, refl, ap, Bool, true, false, not, ◌&&◌, List, [], ◌∷◌, arith,
  ltb, ◌==◌, length, get_or, bit_and, bit_xor, holds_below, below-holds, ltb→lt, AllBytes, IsByte,
}
use cxx_library.WebSocket.Frame.{MaskKey, mask_bytes, mask_at, or_flag, first_byte}
use cxx_library.WebSocket.Parser.{has_bit}
use cxx_library.WebSocket.Stream.{xor_bytes}

xor_table : holds_below 256 (λ a. holds_below 256 (λ b. bit_xor (bit_xor a b) b == a)) ≡ true
unfolding holds_below
xor_table = refl

pub xor_twice : (a b : ℕ) → IsByte a → IsByte b → bit_xor (bit_xor a b) b ≡ a
xor_twice a b ha hb = ground (
  arith,
  below-holds 256 (λ b. bit_xor (bit_xor a b) b == a) b
      (below-holds 256 (λ a. holds_below 256 (λ b. bit_xor (bit_xor a b) b == a)) a xor_table ha)
      hb,
)

same : Bool → Bool → Bool
same true b = b
same false b = not b

-- The first byte of a header, for one choice of the flags and every opcode.
first_back : Bool → Bool → Bool → Bool → ℕ → Bool
first_back fin r1 r2 r3 op =
    let b = first_byte fin r1 r2 r3 op in
    same fin (has_bit b 128)
    && same r1 (has_bit b 64)
    && same r2 (has_bit b 32)
    && same r3 (has_bit b 16)
    && bit_and b 15 == op
    && ltb b 256

first_table : (fin r1 r2 r3 : Bool) → holds_below 16 (first_back fin r1 r2 r3) ≡ true
unfolding holds_below first_back same first_byte or_flag has_bit
first_table true true true true = refl
first_table true true true false = refl
first_table true true false true = refl
first_table true true false false = refl
first_table true false true true = refl
first_table true false true false = refl
first_table true false false true = refl
first_table true false false false = refl
first_table false true true true = refl
first_table false true true false = refl
first_table false true false true = refl
first_table false true false false = refl
first_table false false true true = refl
first_table false false true false = refl
first_table false false false true = refl
first_table false false false false = refl

second_back : Bool → ℕ → Bool
second_back m n =
    same m (has_bit (or_flag m 128 n) 128)
    && or_flag m 128 n % 128 == n
    && ltb (or_flag m 128 n) 256

second_table : (m : Bool) → holds_below 128 (second_back m) ≡ true
unfolding holds_below second_back same or_flag has_bit
second_table true = refl
second_table false = refl

same_eq : (a b : Bool) → same a b ≡ true → b ≡ a
unfolding same
same_eq true b h = h
same_eq false b h = ground arith

-- The flags and the opcode of a first byte.
pub first_fields :
    (fin r1 r2 r3 : Bool) (op : ℕ)
    → op < 16
    → let b = first_byte fin r1 r2 r3 op in
      (has_bit b 128 ≡ fin)
      × (has_bit b 64 ≡ r1)
      × (has_bit b 32 ≡ r2)
      × (has_bit b 16 ≡ r3)
      × (bit_and b 15 ≡ op)
      × IsByte b
unfolding first_back
first_fields fin r1 r2 r3 op h =
    let b : ℕ = first_byte fin r1 r2 r3 op in
    ground (
      arith,
      below-holds 16 (first_back fin r1 r2 r3) op (first_table fin r1 r2 r3) h,
      same_eq fin (has_bit b 128),
      same_eq r1 (has_bit b 64),
      same_eq r2 (has_bit b 32),
      same_eq r3 (has_bit b 16),
    )

pub second_fields :
    (m : Bool) (n : ℕ)
    → n < 128
    → (has_bit (or_flag m 128 n) 128 ≡ m) × (or_flag m 128 n % 128 ≡ n) × IsByte (or_flag m 128 n)
unfolding second_back
second_fields m n h = ground (
  arith,
  below-holds 128 (second_back m) n (second_table m) h,
  same_eq m (has_bit (or_flag m 128 n) 128),
)

get_or-IsByte : (xs : List ℕ) (i : ℕ) → AllBytes xs → IsByte (get_or xs i 0)
get_or-IsByte [] i h = omega arith
get_or-IsByte (x ∷ xs) zero h = h.0
get_or-IsByte (x ∷ xs) (suc i) h = get_or-IsByte xs i h.1

pub mask_at-IsByte : (key : MaskKey) (i : ℕ) → AllBytes (mask_bytes key) → IsByte (mask_at key i)
unfolding mask_at
mask_at-IsByte key i h = get_or-IsByte (mask_bytes key) (i % 4) h

pub length-xor_bytes :
    (i : ℕ) (key : MaskKey) (xs : List ℕ) → length (xor_bytes i key xs) ≡ length xs
unfolding xor_bytes
length-xor_bytes i key [] = refl
length-xor_bytes i key (x ∷ xs) = ap suc (length-xor_bytes (i + 1) key xs)

-- Masking twice gives the bytes back.
pub xor_bytes_twice :
    (i : ℕ) (key : MaskKey) (xs : List ℕ)
    → AllBytes (mask_bytes key)
    → AllBytes xs
    → xor_bytes i key (xor_bytes i key xs) ≡ xs
unfolding xor_bytes
xor_bytes_twice i key [] k h = refl
xor_bytes_twice i key (x ∷ xs) k h =
    rw (
      xor_twice x (mask_at key i) h.0 (mask_at-IsByte key i k),
      xor_bytes_twice (i + 1) key xs k h.1,
    )

xor_range : holds_below 256 (λ a. holds_below 256 (λ b. ltb (bit_xor a b) 256)) ≡ true
unfolding holds_below
xor_range = refl

bit_xor-IsByte : (a b : ℕ) → IsByte a → IsByte b → IsByte (bit_xor a b)
bit_xor-IsByte a b ha hb = ltb→lt (bit_xor a b) 256 (
    below-holds 256 (λ b. ltb (bit_xor a b) 256) b
      (below-holds 256 (λ a. holds_below 256 (λ b. ltb (bit_xor a b) 256)) a xor_range ha) hb)

pub xor_bytes-AllBytes :
    (i : ℕ) (key : MaskKey) (xs : List ℕ)
    → AllBytes (mask_bytes key)
    → AllBytes xs
    → AllBytes (xor_bytes i key xs)
unfolding xor_bytes
xor_bytes-AllBytes i key [] k h = tt
xor_bytes-AllBytes i key (x ∷ xs) k h = (
  bit_xor-IsByte x (mask_at key i) h.0 (mask_at-IsByte key i k),
  xor_bytes-AllBytes (i + 1) key xs k h.1,
)
