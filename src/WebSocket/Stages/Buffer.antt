-- ===== src/WebSocket/Stages/Buffer.antt =====
-- How the parts of `ProcessMessage` keep the buffer and the message in step.
use cxx_library.Prelude.{
  ℕ, ◌+◌, ◌-◌, ◌≤◌, ◌<◌, ◌≡◌, sym, ap, ◌∙◌, ◌⊎◌, inl, inr, List, [], arith, ltb, length, drop,
  length-drop, drop-drop, drop-past, Bool-cases,
}
use cxx_library.Blob.{BlobOps}
use cxx_library.WebSocket.Parser.{ParserState, skip, bufferize}

module _ (o : BlobOps) where
  open o use {Blob, bytes, append, bytes-append}

  -- The message from `off` on is what is not read: the buffer is empty and plays no part, or the
  -- message is the buffer's content from the offset on.
  abbrev pub At : List ℕ → ℕ → Blob → ℕ → Type 0
  At msg off b k =
      (off ≤ length msg)
      × (((bytes b ≡ []) × (k ≡ 0))
          ⊎ ((0 < length (bytes b)) × (k ≤ length (bytes b)) × (drop k (bytes b) ≡ drop off msg)))

  pub bufferize_lem :
      (msg : List ℕ) (off : ℕ) (s : ParserState Blob)
      → At msg off s.buf s.offset
      → (b : Blob) × (bufferize o msg off s ≡ record s { buf = b })
        × (s.offset ≤ length (bytes b))
        × (drop s.offset (bytes b) ≡ drop off msg)
  unfolding bufferize
  bufferize_lem msg off s (h, inl (e, z)) = elim (Bool-cases (ltb 0 (length msg - off))) [
    | inl p ↦ (append (drop off msg) s.buf, rw (e, p), omega arith, rw (z, bytes-append, e))
    | inr p ↦ (s.buf, rw (e, p), omega arith, rw (z, e) (sym (drop-past off msg (ground arith))))
  ]
  bufferize_lem msg off s (h, inr (p, fit, d)) = (s.buf, ground arith, fit, d)

  pub skip_lem :
      (n : ℕ) (msg : List ℕ) (off : ℕ) (s : ParserState Blob)
      → At msg off s.buf s.offset
      → off + n ≤ length msg
      → (k : ℕ) × (skip o n s ≡ record s { offset = k }) × At msg (off + n) s.buf k
  unfolding skip
  skip_lem n msg off s (h, inl (e, z)) room = (s.offset, rw e, (room, inl (e, z)))
  skip_lem n msg off s (h, inr (p, fit, d)) room =
      (s.offset + n, ground arith, (room, inr (p, omega (arith, enough), further)))
    where
      enough : length (bytes s.buf) - s.offset ≡ length msg - off
      enough = sym (length-drop s.offset (bytes s.buf)) ∙ ap length d ∙ length-drop off msg

      further : drop (s.offset + n) (bytes s.buf) ≡ drop (off + n) msg
      further = rw (← drop-drop, d) (drop-drop off n msg)
