-- ===== src/WebSocket/Rounds.antt =====
-- The rounds of the loop of `ParseData` of websocket/parser/parser.cpp follow the stream.
use cxx_library.Prelude.{
  ℕ, zero, suc, ◌+◌, ◌≤◌, ◌<◌, ◌≡◌, refl, sym, ap, subst, ◌∙◌, ◌⊎◌, inl, inr, Bool, true, false,
  some, List, [], ◌∷◌, ◌++◌, arith, ltb, map, length, drop, length-append, length-drop, drop-append,
  drop-nil, append-nil, append_assoc, eq_nil, ltb→lt, lt→ltb, AllBytes, All-drop, All-append,
  IsByte, Bool-cases,
}
use cxx_library.Blob.{BlobOps, size}
use cxx_library.WebSocket.Frame.{Frame}
use cxx_library.WebSocket.Parser.{ParserState, returned, process_message}
use cxx_library.WebSocket.Feed.{done, next_message, is_last, parse_loop}
use cxx_library.WebSocket.Stream.{
  Phase, idle, need_size, need_key, need_payload, Run, advance, wait,
}
use cxx_library.WebSocket.Stages.Buffer.{At}
use cxx_library.WebSocket.Stages.Fill.{view}
use cxx_library.WebSocket.Stages.Result.{pending, Waits, Ended, waited, completed}
use cxx_library.WebSocket.Stages.Process.{process_message_lem}

module _ (o : BlobOps) where
  open o use {Blob, bytes, append, shrink, chop, bytes-append}

  -- A state between two calls: it waits in a phase, its offset is inside the buffer, and what is
  -- buffered is bytes.
  abbrev pub IsReady : ParserState Blob → Phase → Type 0
  IsReady s p = Waits o s p × (s.offset ≤ length (bytes s.buf)) × AllBytes (pending o s)

  -- What the frames and the phase of a later state say of the stream `xs` read from `(p, fr)` on.
  abbrev pub Follows : Phase → List ℕ → List (Frame Blob) → ParserState Blob → Type 0
  Follows p xs fr s =
      (q : Phase) × (new : List (Frame Blob)) × IsReady s q
      × (s.frames ≡ fr ++ new)
      × Run p xs (map (view o) new) q (pending o s)

  pub Waits-buffer :
      (s : ParserState Blob) (p : Phase) (b : Blob) (k : ℕ)
      → Waits o s p
      → Waits o (record s { buf = b; offset = k }) p
  Waits-buffer s idle b k w = ap (λ (t : ParserState Blob). record t { buf = b; offset = k }) w
  Waits-buffer s (need_size f n) b k (g, w, v, e, two) =
      (g, ap (λ (t : ParserState Blob). record t { buf = b; offset = k }) w, v, e, two)
  Waits-buffer s (need_key f n) b k (g, w, v, e) =
      (g, ap (λ (t : ParserState Blob). record t { buf = b; offset = k }) w, v, e)
  Waits-buffer s (need_payload f n) b k (g, w, v, e) =
      (g, ap (λ (t : ParserState Blob). record t { buf = b; offset = k }) w, v, e)

  -- The message that `ParseData` hands over is what is pending and the new data.
  next_message_first :
      (chunk : List ℕ) (s : ParserState Blob) (p : Phase)
      → IsReady s p
      → AllBytes chunk
      → (s' : ParserState Blob) × (next_message o true chunk s ≡ some (pending o s ++ chunk, s'))
        × Waits o s' p
        × At o (pending o s ++ chunk) 0 s'.buf s'.offset
        × (s'.frames ≡ s.frames)
  unfolding next_message
  next_message_first chunk s p (w, fit, octets) h = elim (Bool-cases (ltb 0 (size o s.buf))) [
    | inl full ↦ (
      record s { buf = append chunk s.buf },
      rw full (ap (λ m. some (m, record s { buf = append chunk s.buf })) joined),
      Waits-buffer s p (append chunk s.buf) s.offset w,
      (omega arith, inr (omega (arith, grown, ltb→lt 0 _ full), omega (arith, grown), joined)),
      refl,
    )
    | inr bare_buf ↦
        let bare : bytes s.buf ≡ [] = eq_nil (bytes s.buf) (ground arith) in
        let at_start : s.offset ≡ 0 = omega (arith, ap (length {A = ℕ}) bare) in
        (s, rw (bare_buf, bare, drop-nil), w, (omega arith, inl (bare, at_start)), refl)
  ]
    where
      joined : drop s.offset (bytes (append chunk s.buf)) ≡ pending o s ++ chunk
      joined = rw bytes-append (drop-append s.offset (bytes s.buf) chunk fit)

      grown : length (bytes (append chunk s.buf)) ≡ length (bytes s.buf) + length chunk
      grown = rw bytes-append (length-append (bytes s.buf) chunk)

  next_message_again :
      (chunk : List ℕ) (s : ParserState Blob)
      → s.offset ≤ length (bytes s.buf)
      → 0 < length (pending o s)
      → (next_message o false chunk s ≡ some (pending o s, s)) × At o (pending o s) 0 s.buf s.offset
  unfolding next_message
  next_message_again chunk s fit h =
      (rw (lt→ltb 0 _ some_left), (omega arith, inr (some_left, fit, refl)))
    where
      some_left : 0 < length (bytes s.buf)
      some_left = omega (arith, length-drop s.offset (bytes s.buf))

  -- Rounds after the first, each from a phase between frames.
  abbrev Again : ℕ → Type 0
  Again fuel =
      (chunk : List ℕ) (s : ParserState Blob)
      → IsReady s idle
      → 0 < length (pending o s)
      → length (pending o s) < fuel
      → (s' : ParserState Blob) × (parse_loop o fuel false chunk s ≡ done s')
        × Follows idle (pending o s) s.frames s'

  module _ (fuel : ℕ) (ih : Again fuel) (first : Bool) (chunk msg : List ℕ)
      (s s1 : ParserState Blob) (p : Phase) (got : next_message o first chunk s ≡ some (msg, s1))
      (same : s1.frames ≡ s.frames) (octets : AllBytes msg)
      (enough : (length msg < fuel) ⊎ ((p ≡ idle) × (length msg ≤ fuel))) where
    abbrev Goal : Type 0
    Goal =
        (s' : ParserState Blob) × (parse_loop o (suc fuel) first chunk s ≡ done s')
        × Follows p msg s.frames s'

    ih_flat :
        (chunk : List ℕ) (s : ParserState Blob)
        → IsReady s idle
        → 0 < length (pending o s)
        → length (pending o s) < fuel
        → (s' : ParserState Blob) × (parse_loop o fuel false chunk s ≡ done s')
          × (q : Phase) × (new : List (Frame Blob)) × IsReady s' q
          × (s'.frames ≡ s.frames ++ new)
          × Run idle (pending o s) (map (view o) new) q (pending o s')
    ih_flat chunk s r h l = let (s', e, f) = ih chunk s r h l in (s', e, f.0, f.1, f.2, f.3, f.4)

    no_frame : (s2 : ParserState Blob) → s2.frames ≡ s.frames → is_last o s s2 ≡ true
    unfolding is_last
    no_frame s2 e = ground (arith, ap (length {A = Frame Blob}) e)

    all_read : (s2 : ParserState Blob) → length (pending o s2) ≡ 0 → is_last o s s2 ≡ true
    unfolding is_last
    all_read s2 e = ground (arith, length-drop s2.offset (bytes s2.buf))

    one_more :
        (s2 : ParserState Blob) (g : Frame Blob)
        → s2.frames ≡ s.frames ++ (g ∷ [])
        → 0 < length (pending o s2)
        → is_last o s s2 ≡ false
    unfolding is_last
    one_more s2 g e h = ground (
      arith,
      length-drop s2.offset (bytes s2.buf),
      ap (length {A = Frame Blob}) e,
      length-append s.frames (g ∷ []),
    )

    last_round :
        (s2 : ParserState Blob)
        → process_message o msg s1 ≡ returned s2
        → is_last o s s2 ≡ true
        → parse_loop o (suc fuel) first chunk s ≡ done s2
    unfolding parse_loop
    last_round s2 e l = ground (arith, got, e, l)

    more_rounds :
        (s2 : ParserState Blob)
        → process_message o msg s1 ≡ returned s2
        → is_last o s s2 ≡ false
        → parse_loop o (suc fuel) first chunk s ≡ parse_loop o fuel false chunk s2
    unfolding parse_loop
    more_rounds s2 e l = ground (arith, got, e, l)

    one_round :
        (s2 : ParserState Blob)
        → process_message o msg s1 ≡ returned s2
        → s2.offset ≤ length (bytes s2.buf)
        → AllBytes (pending o s2)
        → Ended o p msg s1.frames s2
        → Goal
    one_round s2 e fit left (waited q w run keep) = (
      s2,
      last_round s2 e (no_frame s2 (keep ∙ same)),
      (q, [], (w, fit, left), keep ∙ same ∙ sym (append-nil s.frames), run),
    )
    one_round s2 e fit left (completed g w frames shorter strict go) =
        elim (Bool-cases (ltb 0 (length (pending o s2)))) [
          | inr all ↦
              let bare : pending o s2 ≡ [] = eq_nil (pending o s2) (ground arith) in
              (
                s2,
                last_round s2 e (all_read s2 (omega (arith, ap (length {A = ℕ}) bare))),
                (
                  idle,
                  g ∷ [],
                  (w, fit, left),
                  added,
                  go [] idle (pending o s2) (wait (rw bare (unfold advance in refl))),
                ),
              )
          | inl some_left ↦
              let (s', e', q, new, ready, fr, run) =
                ih_flat chunk s2 (w, fit, left) (ltb→lt 0 _ some_left)
                  (bound shorter strict enough) in
              (
                s',
                more_rounds s2 e (one_more s2 g added (ltb→lt 0 _ some_left)) ∙ e',
                (
                  q,
                  g ∷ new,
                  ready,
                  fr ∙ ap (λ t. t ++ new) added ∙ append_assoc s.frames (g ∷ []) new,
                  go (map (view o) new) q (pending o s') run,
                ),
              )
        ]
      where
        added : s2.frames ≡ s.frames ++ (g ∷ [])
        added = rw (← same) frames

        bound :
            length (pending o s2) ≤ length msg
            → (p ≡ idle → length (pending o s2) < length msg)
            → (length msg < fuel) ⊎ ((p ≡ idle) × (length msg ≤ fuel))
            → length (pending o s2) < fuel
        bound le lt (inl h) = omega arith
        bound le lt (inr (i, h)) = omega (arith, lt i)

    all_rounds : Waits o s1 p → At o msg 0 s1.buf s1.offset → Goal
    all_rounds w at =
        let (s2, e, fit, (d, left), ended) = process_message_lem o p msg s1 w at octets in
        one_round s2 e fit (subst AllBytes (sym left) (All-drop IsByte d msg octets)) ended

  again : (fuel : ℕ) → Again fuel
  again zero chunk s r h l = absurd (omega arith)
  again (suc fuel) chunk s (w, fit, octets) h l =
      let (got, at) = next_message_again chunk s fit h in
      all_rounds fuel (again fuel) false chunk (pending o s) s s idle got refl octets
        (inr (refl, omega arith)) w at

  -- The loop of `ParseData` ends on the fuel given to it, in a state that waits where the stream
  -- waits, behind the frames that the stream completes.
  pub parse_loop_lem :
      (chunk : List ℕ) (s : ParserState Blob) (p : Phase)
      → IsReady s p
      → AllBytes chunk
      → (s' : ParserState Blob) × (parse_loop o (size o s.buf + length chunk + 2) true chunk s
          ≡ done s')
        × Follows p (pending o s ++ chunk) s.frames s'
  parse_loop_lem chunk s p r h =
      let (s1, got, w, at, same) = next_message_first chunk s p r h in
      let n : ℕ = size o s.buf + length chunk + 1 in
      let e : size o s.buf + length chunk + 2 ≡ suc n = omega arith in
      subst
        (λ t.
          (s' : ParserState Blob) × (parse_loop o t true chunk s ≡ done s')
          × Follows p (pending o s ++ chunk) s.frames s')
        (sym e)
        (all_rounds n (again n) true chunk (pending o s ++ chunk) s s1 p got same
          (All-append IsByte (pending o s) chunk r.2 h)
          (inl
            (omega (arith, length-append (pending o s) chunk, length-drop s.offset (bytes s.buf))))
          w at)
