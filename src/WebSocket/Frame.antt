-- ===== src/WebSocket/Frame.antt =====
-- `TFrame` of websocket/parser: `Header`, `MaskedPayload` and the conversion to a blob.
use cxx_library.Prelude.{
  ℕ, zero, suc, ◌+◌, ◌%◌, ◌^◌, Bool, List, [], ◌∷◌, bit_or, bit_xor, ltb, if◌then◌else◌, get_or,
  length, replicate,
}
use cxx_library.Blob.{BlobOps, size}
use cxx_library.HostOrder.{le_bytes, swap16, swap64}

-- `char Mask[4]`
pub record MaskKey : Type 0 where
  pub k0 : ℕ
  pub k1 : ℕ
  pub k2 : ℕ
  pub k3 : ℕ

abbrev pub mask_bytes : MaskKey → List ℕ
mask_bytes k = k.k0 ∷ k.k1 ∷ k.k2 ∷ k.k3 ∷ []

-- `Mask[i % sizeof(Mask)]`
unfoldable pub mask_at : MaskKey → ℕ → ℕ
mask_at k i = get_or (mask_bytes k) (i % 4) 0

-- `TFrame`; the payload is a blob, or in specifications its bytes.
pub record Frame (P : Type 0) : Type 0 where
  pub is_fin : Bool
  pub rsv1 : Bool
  pub rsv2 : Bool
  pub rsv3 : Bool
  pub is_masked : Bool
  pub opcode : ℕ
  pub mask : MaskKey
  pub payload : P

abbrev pub no_mask : MaskKey
no_mask = record { k0 = 0; k1 = 0; k2 = 0; k3 = 0 }

-- `|=` under a condition
unfoldable pub or_flag : Bool → ℕ → ℕ → ℕ
or_flag flag bit b = if flag then bit_or b bit else b

unfoldable pub first_byte : Bool → Bool → Bool → Bool → ℕ → ℕ
unfolding or_flag
first_byte fin r1 r2 r3 opcode =
    or_flag r3 16 (or_flag r2 32 (or_flag r1 64 (or_flag fin 128 opcode)))

-- The second byte before the mask bit, and the bytes that `memcpy` puts behind it.
unfoldable pub size_code : ℕ → ℕ × List ℕ
size_code n =
    if ltb n 126
    then (n, [])
    else if ltb n (2 ^ 16)
    then (126, le_bytes 2 (swap16 (n % 2 ^ 16)))
    else (127, le_bytes 8 (swap64 n))

module _ (o : BlobOps) where
  open o use {Blob, bytes, empty, reserve, append, store, shrink}

  -- `memcpy(&out[i], xs, length xs)`
  unfoldable pub store_all : ℕ → List ℕ → Blob → Blob
  store_all i [] out = out
  store_all i (x ∷ xs) out = store_all (i + 1) xs (store i x out)

  -- `TFrame::Header`
  unfoldable pub header : Frame Blob → Blob
  unfolding store_all
  header f =
      let dummy = append (replicate 14 0) (reserve 14 empty) in
      let start = store 0 (first_byte f.is_fin f.rsv1 f.rsv2 f.rsv3 f.opcode) dummy in
      let (second, coded) = size_code (size o f.payload) in
      let sized = store 1 (or_flag f.is_masked 128 second) (store_all 2 coded start) in
      if f.is_masked
      then shrink (2 + length coded + 4) (store_all (2 + length coded) (mask_bytes f.mask) sized)
      else shrink (2 + length coded) sized

  -- the loop of `MaskedPayload`, from index `i` for `n` rounds
  unfoldable pub masked_loop : ℕ → ℕ → MaskKey → Blob → Blob → Blob
  masked_loop zero i key inp out = out
  masked_loop (suc n) i key inp out =
      masked_loop n (i + 1) key inp (store i (bit_xor (get_or (bytes inp) i 0) (mask_at key i)) out)

  -- `TFrame::MaskedPayload`
  unfoldable pub masked_payload : Frame Blob → Blob
  unfolding masked_loop
  masked_payload f =
      masked_loop (size o f.payload) 0 f.mask f.payload (reserve (size o f.payload) empty)

  -- `TFrame::operator TBlob`
  unfoldable pub to_blob : Frame Blob → Blob
  to_blob f =
      let out = append (bytes (header f)) (reserve (size o (header f) + size o f.payload) empty) in
      if f.is_masked then append (bytes (masked_payload f)) out else append (bytes f.payload) out
