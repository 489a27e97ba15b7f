-- ===== src/WebSocket/Stages/Key.antt =====
-- The third part of `ProcessMessage`: the mask key, and what follows it.
use cxx_library.Prelude.{
  ℕ, ◌+◌, ◌≤◌, ◌<◌, ◌≡◌, refl, sym, ap, ◌∙◌, inl, inr, true, false, none, some, List, [], ◌∷◌,
  arith, ltb, length, drop, length-drop, drop-drop, Bool-cases,
}
use cxx_library.Blob.{BlobOps}
use cxx_library.WebSocket.Frame.{Frame}
use cxx_library.WebSocket.Parser.{
  ParserState, Flow, returned, next, mask_key, payload_bytes, bufferize, skip, key_at, read_key,
  read_payload, ◌>>=◌,
}
use cxx_library.WebSocket.Stream.{
  View, Progress, idle, need_key, need_payload, advance, key_of, wait,
}
use cxx_library.WebSocket.Stages.Buffer.{At, bufferize_lem, skip_lem}
use cxx_library.WebSocket.Stages.Fill.{view}
use cxx_library.WebSocket.Stages.Result.{state, Result, waited, prepend, by_flow}
use cxx_library.WebSocket.Stages.Payload.{read_payload_lem}

advance_key :
    (f : View) (n : ℕ) (xs : List ℕ)
    → f.is_masked ≡ true
    → 4 ≤ length xs
    → advance (need_key f n) xs
      ≡ some (need_payload (record f { mask = key_of xs }) n, drop 4 xs, none)
unfolding advance
advance_key f n xs m h = rw m (ground arith)

advance_key_wait :
    (f : View) (n : ℕ) (xs : List ℕ)
    → f.is_masked ≡ true
    → length xs < 4
    → advance (need_key f n) xs ≡ none
unfolding advance
advance_key_wait f n xs m h = rw m (ground arith)

advance_key_plain :
    (f : View) (n : ℕ) (xs : List ℕ)
    → f.is_masked ≡ false
    → advance (need_key f n) xs ≡ some (need_payload f n, xs, none)
unfolding advance
advance_key_plain f n xs m = rw m

key_at-eq-key_of : (xs : List ℕ) → 4 ≤ length xs → key_at xs ≡ key_of xs
unfolding key_at key_of
key_at-eq-key_of [] h = absurd (omega arith)
key_at-eq-key_of (a ∷ []) h = absurd (omega arith)
key_at-eq-key_of (a ∷ b ∷ []) h = absurd (omega arith)
key_at-eq-key_of (a ∷ b ∷ c ∷ []) h = absurd (omega arith)
key_at-eq-key_of (a ∷ b ∷ c ∷ d ∷ xs) h = refl

need_key≢idle : {f : View} {n : ℕ} → need_key f n ≡ idle → ⊥
need_key≢idle h = cc

module _ (o : BlobOps) where
  open o use {Blob, bytes}

  -- the last two parts
  abbrev pub from_key : List ℕ → ParserState Blob → ℕ → Flow (ParserState Blob)
  from_key msg s off = read_key o msg s off >>= read_payload o msg

  module _ (msg : List ℕ) (off k n : ℕ) (b : Blob) (f : Frame Blob) (fr : List (Frame Blob))
      (at : At o msg off b k) (e : bytes f.payload ≡ []) where
    abbrev pub st : ParserState Blob
    st = state o b k (some f) 0 n fr mask_key

    plain_step :
        f.is_masked ≡ false
        → read_key o msg st off ≡ next (state o b k (some f) 0 n fr payload_bytes) off
    unfolding read_key
    plain_step m = ground arith

    wait_step :
        f.is_masked ≡ true
        → length (drop off msg) < 4
        → read_key o msg st off ≡ returned (bufferize o msg off st)
    unfolding read_key
    wait_step m h = ground (arith, length-drop off msg)

    abbrev keyed : Frame Blob
    keyed = record f { mask = key_at (drop off msg) }

    masked_step :
        f.is_masked ≡ true
        → 4 ≤ length (drop off msg)
        → read_key o msg st off
          ≡ next (skip o 4 (state o b k (some keyed) 0 n fr payload_bytes)) (off + 4)
    unfolding read_key
    masked_step m h = ground (arith, length-drop off msg)

    from_key_plain :
        f.is_masked ≡ false
        → Result o (need_key (view o f) n) (drop off msg) fr (from_key msg st off)
    from_key_plain m =
        by_flow o (need_key (view o f) n) (drop off msg) fr
          (ap (λ r. r >>= read_payload o msg) (plain_step m))
          (prepend o (need_key (view o f) n) (need_payload (view o f) n) (drop off msg)
            (drop off msg) fr _ 0 (advance_key_plain (view o f) n (drop off msg) m) refl
            (λ i. absurd (need_key≢idle i)) (read_payload_lem o msg off k n b f fr at e))

    from_key_wait :
        f.is_masked ≡ true
        → length (drop off msg) < 4
        → Result o (need_key (view o f) n) (drop off msg) fr (from_key msg st off)
    from_key_wait m h =
        let (b', eq, fit, rest) = bufferize_lem o msg off st at in
        (
          record st { buf = b' },
          ap (λ r. r >>= read_payload o msg) (wait_step m h) ∙ ap returned eq,
          fit,
          (0, rest),
          waited (need_key (view o f) n) (f, refl, refl, e)
              (rw rest (wait (advance_key_wait (view o f) n (drop off msg) m h))) refl,
        )

    from_key_masked :
        f.is_masked ≡ true
        → 4 ≤ length (drop off msg)
        → Result o (need_key (view o f) n) (drop off msg) fr (from_key msg st off)
    from_key_masked m h =
        let (k', eq, at') =
          skip_lem o 4 msg off (state o b k (some keyed) 0 n fr payload_bytes) at
            (omega (arith, at.0, length-drop off msg)) in
        by_flow o (need_key (view o f) n) (drop off msg) fr
          (ap (λ r. r >>= read_payload o msg) (masked_step m h ∙ ap (λ t. next t (off + 4)) eq))
          (prepend o (need_key (view o f) n) (need_payload (view o keyed) n) (drop off msg)
            (drop (off + 4) msg) fr _ 4
            (advance_key (view o f) n (drop off msg) m h ∙ ap some moved)
            (sym (drop-drop off 4 msg)) (λ i. absurd (need_key≢idle i))
            (read_payload_lem o msg (off + 4) k' n b keyed fr at' e))
      where
        moved :
            ◌≡◌ {A = Progress}
              (
                need_payload (record (view o f) { mask = key_of (drop off msg) }) n,
                drop 4 (drop off msg),
                none,
              )
              (need_payload (view o keyed) n, drop (off + 4) msg, none)
        moved = rw (key_at-eq-key_of (drop off msg) h, drop-drop)

    pub from_key_lem : Result o (need_key (view o f) n) (drop off msg) fr (from_key msg st off)
    from_key_lem = elim (Bool-cases f.is_masked) [
      | inr m ↦ from_key_plain m
      | inl m ↦ elim (Bool-cases (ltb (length (drop off msg)) 4)) [
        | inl h ↦ from_key_wait m (ground arith)
        | inr h ↦ from_key_masked m (ground arith)
      ]
    ]
