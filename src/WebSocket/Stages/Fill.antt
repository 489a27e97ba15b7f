-- ===== src/WebSocket/Stages/Fill.antt =====
-- The payload that the parser stores is the unmasked one.
use cxx_library.Prelude.{
  ℕ, zero, suc, ◌+◌, ◌≤◌, ◌≡◌, refl, sym, ap, ◌∙◌, Bool, true, false, List, [], ◌∷◌, ◌++◌, arith,
  bit_xor, if◌then◌else◌, length, set_past, get_or-past, append_assoc, length-append, length-take,
  take,
}
use cxx_library.Blob.{BlobOps}
use cxx_library.WebSocket.Frame.{Frame, MaskKey, mask_at}
use cxx_library.WebSocket.Parser.{unmask_loop, fill}
use cxx_library.WebSocket.Stream.{View, xor_bytes, filled}

module _ (o : BlobOps) where
  open o use {Blob, bytes, bytes-append, bytes-reserve, bytes-store}

  -- a frame with its payload's bytes
  abbrev pub view : Frame Blob → View
  view f = record {
    is_fin = f.is_fin;
    rsv1 = f.rsv1;
    rsv2 = f.rsv2;
    rsv3 = f.rsv3;
    is_masked = f.is_masked;
    opcode = f.opcode;
    mask = f.mask;
    payload = bytes f.payload;
  }

  unmask_loop_lem :
      (n i : ℕ) (key : MaskKey) (b : Blob) (front xs : List ℕ)
      → bytes b ≡ front ++ xs
      → i ≡ length front
      → length xs ≡ n
      → bytes (unmask_loop o n i key b) ≡ front ++ xor_bytes i key xs
  unfolding unmask_loop xor_bytes
  unmask_loop_lem zero i key b front [] e ei en = e
  unmask_loop_lem zero i key b front (x ∷ xs) e ei en = absurd (omega arith)
  unmask_loop_lem (suc n) i key b front [] e ei en = absurd (omega arith)
  unmask_loop_lem (suc n) i key b front (x ∷ xs) e ei en =
      unmask_loop_lem n (i + 1) key _ (front ++ (bit_xor x (mask_at key i) ∷ [])) xs
        (rw
          (bytes-store, e, get_or-past front (x ∷ xs) i 0 0 (omega arith), set_past front _ _ i ei)
          (sym (append_assoc front _ xs)))
        (omega (arith, length-append front (bit_xor x (mask_at key i) ∷ []))) (omega arith)
      ∙ append_assoc front _ _

  filled_payload :
      (masked : Bool) (p : Blob) (n : ℕ) (key : MaskKey) (ys : List ℕ)
      → bytes p ≡ ys
      → length ys ≡ n
      → bytes (if masked then unmask_loop o n 0 key p else p)
        ≡ (if masked then xor_bytes 0 key ys else ys)
  filled_payload true p n key ys e h = unmask_loop_lem n 0 key p [] ys e refl h
  filled_payload false p n key ys e h = e

  pub fill_lem :
      (f : Frame Blob) (n : ℕ) (xs : List ℕ)
      → bytes f.payload ≡ []
      → n ≤ length xs
      → view (fill o f n xs) ≡ filled (view f) (take n xs)
  unfolding fill filled
  fill_lem f n xs e h =
      ap (λ t. record (view f) { payload = t })
        (filled_payload f.is_masked _ n f.mask (take n xs) (rw (bytes-append, bytes-reserve, e))
          (omega (arith, length-take n xs)))
