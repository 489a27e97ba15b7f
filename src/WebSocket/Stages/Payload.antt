-- ===== src/WebSocket/Stages/Payload.antt =====
-- The last part of `ProcessMessage`: the payload.
use cxx_library.Prelude.{
  ℕ, zero, suc, ◌+◌, ◌≤◌, ◌<◌, ◌≡◌, ◌≢◌, refl, sym, ap, subst, ◌∙◌, inl, inr, Bool, true, false,
  none, some, List, [], ◌∷◌, ◌++◌, arith, leb, if◌then◌else◌, length, take, drop, length-drop,
  drop-drop, Bool-cases,
}
use cxx_library.Blob.{BlobOps}
use cxx_library.WebSocket.Frame.{Frame}
use cxx_library.WebSocket.Parser.{returned, payload_bytes, start, fill, bufferize, read_payload}
use cxx_library.WebSocket.Stream.{
  View, idle, need_payload, advance, xor_bytes, filled, wait, emit, Run,
}
use cxx_library.WebSocket.Stages.Buffer.{At, bufferize_lem, skip_lem}
use cxx_library.WebSocket.Stages.Fill.{view, fill_lem}
use cxx_library.WebSocket.Stages.Result.{state, Result, waited, completed}

pub advance_payload :
    (f : View) (n : ℕ) (xs : List ℕ)
    → n ≤ length xs
    → advance (need_payload f n) xs ≡ some (idle, drop n xs, some (filled f (take n xs)))
unfolding advance
advance_payload f n xs h = ground arith

advance_payload_wait :
    (f : View) (n : ℕ) (xs : List ℕ) → length xs < n → advance (need_payload f n) xs ≡ none
unfolding advance
advance_payload_wait f n xs h = ground arith

need_payload≢idle : {f : View} {n : ℕ} → need_payload f n ≡ idle → ⊥
need_payload≢idle h = cc

module _ (o : BlobOps) where
  open o use {Blob, bytes}

  -- The frame is complete: `b` and `k` are the buffer and offset before the rest is bufferized.
  complete :
      (msg : List ℕ) (off off' n : ℕ) (b : Blob) (k : ℕ) (f g : Frame Blob) (fr : List (Frame Blob))
      → off' ≡ off + n
      → At o msg off' b k
      → n ≤ length (drop off msg)
      → view o g ≡ filled (view o f) (take n (drop off msg))
      → Result o
          (need_payload (view o f) n)
          (drop off msg)
          fr
          (returned (bufferize o msg off' (state o b k none 0 0 (fr ++ (g ∷ [])) start)))
  complete msg off off' n b k f g fr eo at h e =
      let (b', eq, fit, rest) =
        bufferize_lem o msg off' (state o b k none 0 0 (fr ++ (g ∷ [])) start) at in
      let left : drop k (bytes b') ≡ drop n (drop off msg) =
        rest ∙ ap (λ j. drop j msg) eo ∙ sym (drop-drop off n msg) in
      (
        _,
        ap returned eq,
        fit,
        (n, left),
        completed g refl refl (rw left (omega (arith, length-drop n (drop off msg))))
            (λ i. absurd (need_payload≢idle i))
            (λ fs q ys run. rw e (
              emit (advance_payload (view o f) n (drop off msg) h)
                (subst (λ t. Run idle t fs q ys) left run))),
      )

  filled_none : (f : Frame Blob) → bytes f.payload ≡ [] → view o f ≡ filled (view o f) []
  unfolding filled
  filled_none f e = ap (λ t. record (view o f) { payload = t }) (same f.is_masked)
    where
      same : (m : Bool) → bytes f.payload ≡ (if m then xor_bytes 0 f.mask [] else [])
      same true = e
      same false = e

  read_payload_none :
      (msg : List ℕ) (off k : ℕ) (b : Blob) (f : Frame Blob) (fr : List (Frame Blob))
      → At o msg off b k
      → bytes f.payload ≡ []
      → Result o
          (need_payload (view o f) 0)
          (drop off msg)
          fr
          (read_payload o msg (state o b k (some f) 0 0 fr payload_bytes) off)
  unfolding read_payload
  read_payload_none msg off k b f fr at e =
      complete msg off off 0 b k f f fr (omega arith) at (omega arith) (filled_none f e)

  read_payload_ready :
      (msg : List ℕ) (off k n : ℕ) (b : Blob) (f : Frame Blob) (fr : List (Frame Blob))
      → At o msg off b k
      → bytes f.payload ≡ []
      → n ≢ 0
      → n ≤ length (drop off msg)
      → Result o
          (need_payload (view o f) n)
          (drop off msg)
          fr
          (read_payload o msg (state o b k (some f) 0 n fr payload_bytes) off)
  unfolding read_payload
  read_payload_ready msg off k n b f fr at e p h =
      let (k', eq, at') =
        skip_lem o n msg off (state o b k (some f) 0 n fr payload_bytes) at
          (omega (arith, at.0, length-drop off msg)) in
      let res =
        complete msg off (off + n) n b k' f (fill o f n (drop off msg)) fr refl at' h
          (fill_lem o f n (drop off msg) e h) in
      (res.0, rw eq (ground (arith, length-drop off msg, res.1)), res.2, res.3, res.4)

  read_payload_wait :
      (msg : List ℕ) (off k n : ℕ) (b : Blob) (f : Frame Blob) (fr : List (Frame Blob))
      → At o msg off b k
      → bytes f.payload ≡ []
      → length (drop off msg) < n
      → Result o
          (need_payload (view o f) n)
          (drop off msg)
          fr
          (read_payload o msg (state o b k (some f) 0 n fr payload_bytes) off)
  unfolding read_payload
  read_payload_wait msg off k n b f fr at e h =
      let (b', eq, fit, rest) =
        bufferize_lem o msg off (state o b k (some f) 0 n fr payload_bytes) at in
      (
        record (state o b k (some f) 0 n fr payload_bytes) { buf = b' },
        ground (arith, length-drop off msg),
        fit,
        (0, rest),
        waited (need_payload (view o f) n) (f, refl, refl, e)
            (rw rest (wait (advance_payload_wait (view o f) n (drop off msg) h))) refl,
      )

  -- `read_payload` in the phase that awaits a payload.
  pub read_payload_lem :
      (msg : List ℕ) (off k n : ℕ) (b : Blob) (f : Frame Blob) (fr : List (Frame Blob))
      → At o msg off b k
      → bytes f.payload ≡ []
      → Result o
          (need_payload (view o f) n)
          (drop off msg)
          fr
          (read_payload o msg (state o b k (some f) 0 n fr payload_bytes) off)
  read_payload_lem msg off k zero b f fr at e = read_payload_none msg off k b f fr at e
  read_payload_lem msg off k (suc n) b f fr at e =
      elim (Bool-cases (leb (suc n) (length (drop off msg)))) [
        | inl p ↦ read_payload_ready msg off k (suc n) b f fr at e (omega arith) (ground arith)
        | inr p ↦ read_payload_wait msg off k (suc n) b f fr at e (ground arith)
      ]
