-- ===== src/WebSocket/Stages/Result.antt =====
-- What a call of `ProcessMessage` leaves, in terms of the stream: it waits, or has completed one
-- frame and then stopped.
use cxx_library.Prelude.{
  ℕ, ◌+◌, ◌≤◌, ◌<◌, ◌≡◌, sym, ap, subst, ◌∙◌, ◌⊎◌, Option, none, some, List, [], ◌∷◌, ◌++◌, arith,
  length, drop, length-drop, drop-drop,
}
use cxx_library.Blob.{BlobOps}
use cxx_library.WebSocket.Frame.{Frame}
use cxx_library.WebSocket.Parser.{
  Stage, start, payload_size, mask_key, payload_bytes, ParserState, Flow, returned,
}
use cxx_library.WebSocket.Stream.{
  View, Phase, idle, need_size, need_key, need_payload, advance, Run, move,
}
use cxx_library.WebSocket.Stages.Fill.{view}

module _ (o : BlobOps) where
  open o use {Blob, bytes}

  -- the bytes that the parser holds and has not read
  abbrev pub pending : ParserState Blob → List ℕ
  pending s = drop s.offset (bytes s.buf)

  -- a state by its parts
  abbrev pub state :
      Blob → ℕ → Option (Frame Blob) → ℕ → ℕ → List (Frame Blob) → Stage → ParserState Blob
  state b k cur sl pl fr st = record {
    buf = b;
    offset = k;
    current_frame = cur;
    size_len = sl;
    payload_len = pl;
    frames = fr;
    stage = st;
  }

  abbrev pub with_frame : ParserState Blob → Option (Frame Blob) → ℕ → ℕ → Stage → ParserState Blob
  with_frame s cur sl pl st = state s.buf s.offset cur sl pl s.frames st

  -- The state waits in a phase.
  abbrev pub Waits : ParserState Blob → Phase → Type 0
  Waits s idle = s ≡ with_frame s none 0 0 start
  Waits s (need_size f k) =
      (g : Frame Blob) × (s ≡ with_frame s (some g) k 0 payload_size)
      × (view o g ≡ f)
      × (bytes g.payload ≡ [])
      × ((k ≡ 2) ⊎ (k ≡ 8))
  Waits s (need_key f n) =
      (g : Frame Blob) × (s ≡ with_frame s (some g) 0 n mask_key)
      × (view o g ≡ f)
      × (bytes g.payload ≡ [])
  Waits s (need_payload f n) =
      (g : Frame Blob) × (s ≡ with_frame s (some g) 0 n payload_bytes)
      × (view o g ≡ f)
      × (bytes g.payload ≡ [])

  -- From phase `p` with the bytes `xs` and the frames `fr`: how the state `s` goes on.
  pub data Ended (p : Phase) (xs : List ℕ) (fr : List (Frame Blob)) (s : ParserState Blob)
      : Type 0 where
    waited : (q : Phase) → Waits s q → Run p xs [] q (pending s) → s.frames ≡ fr → Ended p xs fr s
    completed :
        (g : Frame Blob)
        → Waits s idle
        → s.frames ≡ fr ++ (g ∷ [])
        → length (pending s) ≤ length xs
        → (p ≡ idle → length (pending s) < length xs)
        → ((fs : List View) (q : Phase) (ys : List ℕ)
            → Run idle (pending s) fs q ys
            → Run p xs (view o g ∷ fs) q ys)
        → Ended p xs fr s

  -- What is not read is a rest of what was there.
  abbrev pub IsRest : List ℕ → List ℕ → Type 0
  IsRest ys xs = (d : ℕ) × (ys ≡ drop d xs)

  abbrev pub Result : Phase → List ℕ → List (Frame Blob) → Flow (ParserState Blob) → Type 0
  Result p xs fr flow =
      (s : ParserState Blob) × (flow ≡ returned s)
      × (s.offset ≤ length (bytes s.buf))
      × IsRest (pending s) xs
      × Ended p xs fr s

  pub by_flow :
      (p : Phase) (xs : List ℕ) (fr : List (Frame Blob)) {flow flow' : Flow (ParserState Blob)}
      → flow ≡ flow'
      → Result p xs fr flow'
      → Result p xs fr flow
  by_flow p xs fr e r = subst (Result p xs fr) (sym e) r

  -- A part of a frame read before.
  pub prepend :
      (p p' : Phase) (xs xs' : List ℕ) (fr : List (Frame Blob)) (flow : Flow (ParserState Blob))
      (d : ℕ)
      → advance p xs ≡ some (p', xs', none)
      → xs' ≡ drop d xs
      → (p ≡ idle → length xs' < length xs)
      → Result p' xs' fr flow
      → Result p xs fr flow
  prepend p p' xs xs' fr flow d e r lt (s, f, fit, (d', r'), ended) =
      (s, f, fit, (d + d', r' ∙ ap (drop d') r ∙ drop-drop d d' xs), go ended)
    where
      shorter : length xs' ≤ length xs
      shorter = omega (arith, ap (length {A = ℕ}) r, length-drop d xs)

      go : Ended p' xs' fr s → Ended p xs fr s
      go (waited q w run same) = waited q w (move e run) same
      go (completed g w fs l1 l2 k) =
          completed g w fs (omega (arith, shorter))
            (λ i. let t : length xs' < length xs = lt i in omega arith)
            (λ gs q ys run. move e (k gs q ys run))
