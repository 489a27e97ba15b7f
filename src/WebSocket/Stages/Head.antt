-- ===== src/WebSocket/Stages/Head.antt =====
-- `ProcessMessage` as a whole: from any phase it follows the stream to the next frame.
use cxx_library.Prelude.{
  ℕ, ◌%◌, ◌<◌, ◌≡◌, refl, inl, inr, true, false, none, some, List, [], ◌∷◌, arith, ◌==◌,
  if◌then◌else◌, bit_xor, Bool-cases, AllBytes, IsByte, holds_below, below-holds,
}
use cxx_library.Blob.{BlobOps}
use cxx_library.WebSocket.Frame.{Frame}
use cxx_library.WebSocket.Parser.{
  ParserState, start, payload_size, mask_key, has_bit, new_frame, open_frame, leave_start,
  read_size,
}
use cxx_library.WebSocket.Stream.{View, idle, need_size, need_key, opened, after_head, advance}
use cxx_library.WebSocket.Stages.Buffer.{At}
use cxx_library.WebSocket.Stages.Fill.{view}
use cxx_library.WebSocket.Stages.Result.{state, Result}
use cxx_library.WebSocket.Stages.Key.{from_key, from_key_lem}
use cxx_library.WebSocket.Stages.Size.{from_size, from_size_lem}

-- the second byte without its top bit
abbrev size_bits : ℕ → ℕ
size_bits b = if has_bit b 128 then bit_xor b 128 else b

size_bits_table : holds_below 256 (λ b. size_bits b == b % 128) ≡ true
unfolding holds_below has_bit
size_bits_table = refl

size_bits_lem : (b : ℕ) → IsByte b → size_bits b ≡ b % 128
size_bits_lem b h =
    ground (arith, below-holds 256 (λ b. size_bits b == b % 128) b size_bits_table h)

pub advance_idle :
    (b0 b1 : ℕ) (xs : List ℕ)
    → advance idle (b0 ∷ b1 ∷ xs) ≡ some (after_head (opened b0 b1) (b1 % 128), xs, none)
unfolding advance
advance_idle b0 b1 xs = refl

pub after_head_long : (f : View) (n : ℕ) → (n == 127) ≡ true → after_head f n ≡ need_size f 8
unfolding after_head
after_head_long f n p = rw p

pub after_head_short : (f : View) (n : ℕ) → (n == 126) ≡ true → after_head f n ≡ need_size f 2
unfolding after_head
after_head_short f n p = ground arith

pub after_head_small :
    (f : View) (n : ℕ) → (n == 127) ≡ false → (n == 126) ≡ false → after_head f n ≡ need_key f n
unfolding after_head
after_head_small f n p q = rw (p, q)

module _ (o : BlobOps) where
  open o use {Blob, bytes, bytes-empty}

  view-new_frame : (b0 b1 : ℕ) → view o (new_frame o b0 b1) ≡ opened b0 b1
  unfolding new_frame opened
  view-new_frame b0 b1 = rw bytes-empty

  module _ (b0 b1 k : ℕ) (b : Blob) (fr : List (Frame Blob)) where
    abbrev pub opened_state : ParserState Blob
    opened_state = leave_start o (open_frame o b0 b1 (state o b k none 0 0 fr start))

    open_long :
        size_bits b1 ≡ 127
        → opened_state ≡ state o b k (some (new_frame o b0 b1)) 8 0 fr payload_size
    unfolding open_frame leave_start
    open_long e = ground arith

    open_short :
        size_bits b1 ≡ 126
        → opened_state ≡ state o b k (some (new_frame o b0 b1)) 2 0 fr payload_size
    unfolding open_frame leave_start
    open_short e = ground arith

    open_small :
        size_bits b1 < 126
        → opened_state ≡ state o b k (some (new_frame o b0 b1)) 0 (size_bits b1) fr mask_key
    unfolding open_frame leave_start
    open_small e = ground arith

  small_step :
      (msg : List ℕ) (off k n : ℕ) (b : Blob) (f : Frame Blob) (fr : List (Frame Blob))
      → from_size o msg (state o b k (some f) 0 n fr mask_key) off
        ≡ from_key o msg (state o b k (some f) 0 n fr mask_key) off
  unfolding read_size
  small_step msg off k n b f fr = refl

  -- The state after the two bytes follows the stream on.
  pub after_open :
      (b0 b1 : ℕ) (xs : List ℕ) (k : ℕ) (b : Blob) (fr : List (Frame Blob))
      → AllBytes (b0 ∷ b1 ∷ xs)
      → At o (b0 ∷ b1 ∷ xs) 2 b k
      → Result o
          (after_head (opened b0 b1) (b1 % 128))
          xs
          fr
          (from_size o (b0 ∷ b1 ∷ xs) (opened_state b0 b1 k b fr) 2)
  after_open b0 b1 xs k b fr octets at =
      rw (← view-new_frame b0 b1, ← size_bits_lem b1 octets.1.0)
        (elim (Bool-cases (size_bits b1 == 127)) [
          | inl p ↦
              rw
                (
                  open_long b0 b1 k b fr (ground arith),
                  after_head_long (view o (new_frame o b0 b1)) _ p,
                )
                (from_size_lem o (b0 ∷ b1 ∷ xs) 2 k 8 b (new_frame o b0 b1) fr at none_yet
                  (inr refl) octets.1.1)
          | inr p ↦ elim (Bool-cases (size_bits b1 == 126)) [
            | inl q ↦
                rw
                  (
                    open_short b0 b1 k b fr (ground arith),
                    after_head_short (view o (new_frame o b0 b1)) _ q,
                  )
                  (from_size_lem o (b0 ∷ b1 ∷ xs) 2 k 2 b (new_frame o b0 b1) fr at none_yet
                    (inl refl) octets.1.1)
            | inr q ↦
                rw
                  (
                    open_small b0 b1 k b fr (ground (arith, size_bits_lem b1 octets.1.0)),
                    after_head_small (view o (new_frame o b0 b1)) _ p q,
                    small_step,
                  )
                  (from_key_lem o (b0 ∷ b1 ∷ xs) 2 k (size_bits b1) b (new_frame o b0 b1) fr at
                    none_yet)
          ]
        ])
    where
      none_yet : bytes (new_frame o b0 b1).payload ≡ []
      none_yet = unfold new_frame in bytes-empty
