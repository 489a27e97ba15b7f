-- ===== src/WebSocket/Stages/Process.antt =====
-- `ProcessMessage` as a whole: from any phase it follows the stream to the next frame.
use cxx_library.Prelude.{
  ℕ, ◌%◌, ◌<◌, ◌≡◌, refl, ap, ◌∙◌, inl, inr, none, some, List, [], ◌∷◌, arith, length, AllBytes,
}
use cxx_library.Blob.{BlobOps}
use cxx_library.WebSocket.Frame.{Frame}
use cxx_library.WebSocket.Parser.{
  ParserState, start, payload_size, mask_key, payload_bytes, skip, open_frame, read_head,
  leave_start, read_size, read_key, read_payload, process_message,
}
use cxx_library.WebSocket.Stream.{
  Phase, idle, need_size, need_key, need_payload, opened, after_head, advance, wait,
}
use cxx_library.WebSocket.Stages.Buffer.{At, skip_lem}
use cxx_library.WebSocket.Stages.Fill.{view}
use cxx_library.WebSocket.Stages.Result.{state, Result, Waits, waited, prepend, by_flow}
use cxx_library.WebSocket.Stages.Key.{from_key, from_key_lem}
use cxx_library.WebSocket.Stages.Size.{from_size, from_size_lem}
use cxx_library.WebSocket.Stages.Payload.{read_payload_lem}
use cxx_library.WebSocket.Stages.Head.{advance_idle, after_open}

module _ (o : BlobOps) where
  open o use {Blob, bytes, append, bytes-append}

  abbrev idle_state : Blob → ℕ → List (Frame Blob) → ParserState Blob
  idle_state b k fr = state o b k none 0 0 fr start

  -- a message too short to begin a frame
  short_message :
      (msg : List ℕ) (b : Blob) (k : ℕ) (fr : List (Frame Blob))
      → At o msg 0 b k
      → length msg < 2
      → advance idle msg ≡ none
      → Result o idle msg fr (process_message o msg (idle_state b k fr))
  unfolding process_message read_head
  short_message msg b k fr (z, inl (e, ek)) h w = (
    idle_state (append msg b) k fr,
    rw e (ground arith),
    omega arith,
    (0, rw (ek, bytes-append, e)),
    waited idle refl (rw (ek, bytes-append, e) (wait w)) refl,
  )
  short_message msg b k fr (z, inr (p, fit, d)) h w =
      (idle_state b k fr, ground arith, fit, (0, d), waited idle refl (rw d (wait w)) refl)

  head_step :
      (b0 b1 : ℕ) (xs : List ℕ) (b : Blob) (k : ℕ) (fr : List (Frame Blob))
      → process_message o (b0 ∷ b1 ∷ xs) (idle_state b k fr)
        ≡ from_size o
            (b0 ∷ b1 ∷ xs)
            (leave_start o (open_frame o b0 b1 (skip o 2 (idle_state b k fr))))
            2
  unfolding process_message read_head
  head_step b0 b1 xs b k fr = ground arith

  from_idle :
      (msg : List ℕ) (b : Blob) (k : ℕ) (fr : List (Frame Blob))
      → At o msg 0 b k
      → AllBytes msg
      → Result o idle msg fr (process_message o msg (idle_state b k fr))
  from_idle [] b k fr at h = short_message [] b k fr at (omega arith) (unfold advance in refl)
  from_idle (b0 ∷ []) b k fr at h =
      short_message (b0 ∷ []) b k fr at (omega arith) (unfold advance in refl)
  from_idle (b0 ∷ b1 ∷ xs) b k fr at h =
      let (k', eq, at') = skip_lem o 2 (b0 ∷ b1 ∷ xs) 0 (idle_state b k fr) at (omega arith) in
      by_flow o idle (b0 ∷ b1 ∷ xs) fr
        (head_step b0 b1 xs b k fr
          ∙ ap (λ t. from_size o (b0 ∷ b1 ∷ xs) (leave_start o (open_frame o b0 b1 t)) 2) eq)
        (prepend o idle (after_head (opened b0 b1) (b1 % 128)) (b0 ∷ b1 ∷ xs) xs fr _ 2
          (advance_idle b0 b1 xs) refl (λ i. omega arith) (after_open o b0 b1 xs k' b fr h at'))

  module _ (msg : List ℕ) (b : Blob) (g : Frame Blob) (fr : List (Frame Blob)) (n k : ℕ) where
    size_start :
        process_message o msg (state o b k (some g) n 0 fr payload_size)
        ≡ from_size o msg (state o b k (some g) n 0 fr payload_size) 0
    unfolding process_message read_head leave_start
    size_start = refl

    key_start :
        process_message o msg (state o b k (some g) 0 n fr mask_key)
        ≡ from_key o msg (state o b k (some g) 0 n fr mask_key) 0
    unfolding process_message read_head leave_start read_size
    key_start = refl

    payload_start :
        process_message o msg (state o b k (some g) 0 n fr payload_bytes)
        ≡ read_payload o msg (state o b k (some g) 0 n fr payload_bytes) 0
    unfolding process_message read_head leave_start read_size read_key
    payload_start = refl

  -- From a state that waits in a phase, `ProcessMessage` follows the stream: it never fails, and
  -- it stops where more bytes are needed, or behind the first frame that is complete.
  pub process_message_lem :
      (p : Phase) (msg : List ℕ) (s : ParserState Blob)
      → Waits o s p
      → At o msg 0 s.buf s.offset
      → AllBytes msg
      → Result o p msg s.frames (process_message o msg s)
  process_message_lem idle msg s w at h =
      by_flow o idle msg s.frames (ap (process_message o msg) w)
        (from_idle msg s.buf s.offset s.frames at h)
  process_message_lem (need_size f n) msg s (g, w, v, e, two) at h = rw (← v) (
      by_flow o (need_size (view o g) n) msg s.frames
        (ap (process_message o msg) w ∙ size_start msg s.buf g s.frames n s.offset)
        (from_size_lem o msg 0 s.offset n s.buf g s.frames at e two h))
  process_message_lem (need_key f n) msg s (g, w, v, e) at h = rw (← v) (
      by_flow o (need_key (view o g) n) msg s.frames
        (ap (process_message o msg) w ∙ key_start msg s.buf g s.frames n s.offset)
        (from_key_lem o msg 0 s.offset n s.buf g s.frames at e))
  process_message_lem (need_payload f n) msg s (g, w, v, e) at h = rw (← v) (
      by_flow o (need_payload (view o g) n) msg s.frames
        (ap (process_message o msg) w ∙ payload_start msg s.buf g s.frames n s.offset)
        (read_payload_lem o msg 0 s.offset n s.buf g s.frames at e))
