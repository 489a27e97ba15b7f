-- ===== src/WebSocket/Header.antt =====
-- What `TFrame::Header`, `MaskedPayload` and the conversion to a blob put on the wire.
use cxx_library.Prelude.{
  ℕ, zero, suc, ◌+◌, ◌^◌, ◌≡◌, ap, inl, inr, Bool, true, false, List, [], ◌∷◌, ◌++◌, ltb, length,
  replicate, append-nil, Bool-cases, if◌then◌else◌,
}
use cxx_library.Blob.{BlobOps, size}
use cxx_library.HostOrder.{le_bytes}
use cxx_library.WebSocket.Frame.{
  Frame, MaskKey, mask_bytes, or_flag, first_byte, size_code, store_all, header, masked_loop,
  masked_payload, to_blob,
}

-- The bytes of a header.
unfoldable pub header_bytes : {P : Type 0} → Frame P → ℕ → List ℕ
header_bytes f n =
    let (second, coded) = size_code n in
    first_byte f.is_fin f.rsv1 f.rsv2 f.rsv3 f.opcode
    ∷ or_flag f.is_masked 128 second
    ∷ (coded ++ (if f.is_masked then mask_bytes f.mask else []))

-- no byte, two or eight
abbrev Shape : List ℕ → Type 0
Shape [] = Unit
Shape (a ∷ b ∷ []) = Unit
Shape (a ∷ b ∷ c ∷ d ∷ e ∷ f ∷ g ∷ i ∷ []) = Unit
Shape _ = ⊥

size_code-Shape : (n : ℕ) → Shape (size_code n).1
unfolding size_code le_bytes
size_code-Shape n = elim (Bool-cases (ltb n 126)) [
  | inl p ↦ rw p tt
  | inr p ↦ elim (Bool-cases (ltb n (2 ^ 16))) [ inl q ↦ rw (p, q) tt | inr q ↦ rw (p, q) tt ]
]

module _ (o : BlobOps) where
  open o use {
    Blob, bytes, empty, reserve, append, store, shrink, bytes-empty, bytes-reserve, bytes-append,
    bytes-store, bytes-shrink,
  }

  -- the stores of `Header`, with the size's code given
  header-Shape :
      (masked : Bool) (first second : ℕ) (coded : List ℕ) (key : MaskKey)
      → Shape coded
      → bytes (
          if masked
          then shrink (2 + length coded + 4) (
              store_all o (2 + length coded) (mask_bytes key) (
                store 1 second (
                  store_all o 2 coded
                    (store 0 first (append (replicate 14 0) (reserve 14 empty))))))
          else shrink (2 + length coded) (
              store 1 second
                (store_all o 2 coded (store 0 first (append (replicate 14 0) (reserve 14 empty))))))
        ≡ first ∷ second ∷ (coded ++ (if masked then mask_bytes key else []))
  unfolding store_all
  header-Shape true first second [] key h =
      simp (bytes-shrink, bytes-store, bytes-append, bytes-reserve, bytes-empty)
  header-Shape true first second (a ∷ b ∷ []) key h =
      simp (bytes-shrink, bytes-store, bytes-append, bytes-reserve, bytes-empty)
  header-Shape true first second (a ∷ b ∷ c ∷ d ∷ e ∷ f ∷ g ∷ i ∷ []) key h =
      simp (bytes-shrink, bytes-store, bytes-append, bytes-reserve, bytes-empty)
  header-Shape false first second [] key h =
      simp (bytes-shrink, bytes-store, bytes-append, bytes-reserve, bytes-empty)
  header-Shape false first second (a ∷ b ∷ []) key h =
      simp (bytes-shrink, bytes-store, bytes-append, bytes-reserve, bytes-empty)
  header-Shape false first second (a ∷ b ∷ c ∷ d ∷ e ∷ f ∷ g ∷ i ∷ []) key h =
      simp (bytes-shrink, bytes-store, bytes-append, bytes-reserve, bytes-empty)
  header-Shape masked first second coded key h = elim h [ ]

  -- `Header` of a frame gives the bytes of its header.
  pub bytes-header : (f : Frame Blob) → bytes (header o f) ≡ header_bytes f (size o f.payload)
  unfolding header header_bytes
  bytes-header f =
      header-Shape f.is_masked _ _ (size_code (size o f.payload)).1 f.mask
        (size_code-Shape (size o f.payload))

  -- The loop of `MaskedPayload` writes to spare room only: its blob has no byte that `Size()` counts.
  masked_loop-bytes :
      (n i : ℕ) (key : MaskKey) (inp out : Blob)
      → bytes out ≡ []
      → bytes (masked_loop o n i key inp out) ≡ []
  unfolding masked_loop
  masked_loop-bytes zero i key inp out e = e
  masked_loop-bytes (suc n) i key inp out e =
      masked_loop-bytes n (i + 1) key inp _ (rw (bytes-store, e))

  masked_payload-bytes : (f : Frame Blob) → bytes (masked_payload o f) ≡ []
  unfolding masked_payload
  masked_payload-bytes f =
      masked_loop-bytes (size o f.payload) 0 f.mask f.payload _ (rw (bytes-reserve, bytes-empty))

  -- The conversion of a masked frame to a blob gives its header alone, whatever the payload is.
  pub to_blob_masked :
      (f : Frame Blob)
      → f.is_masked ≡ true
      → bytes (to_blob o f) ≡ header_bytes f (size o f.payload)
  unfolding to_blob
  to_blob_masked f m = simp m (
      rw (bytes-append, masked_payload-bytes, bytes-append, bytes-reserve, bytes-empty, append-nil)
        (bytes-header f))

  -- The conversion of a frame that is not masked gives its header and its payload.
  pub to_blob_plain :
      (f : Frame Blob)
      → f.is_masked ≡ false
      → bytes (to_blob o f) ≡ header_bytes f (size o f.payload) ++ bytes f.payload
  unfolding to_blob
  to_blob_plain f m = simp m (
      rw (bytes-append, bytes-append, bytes-reserve, bytes-empty)
        (ap (λ t. t ++ bytes f.payload) (bytes-header f)))
