-- ===== src/WebSocket/Chunks.antt =====
-- The frames that `ParseData` of websocket/parser/parser.cpp adds do not depend on how the stream
-- is cut into calls.
use cxx_library.Prelude.{
  ℕ, ◌≤◌, ◌≡◌, refl, sym, ap, subst, ◌∙◌, Option, none, some, List, [], ◌∷◌, ◌++◌, arith, map,
  length, length-append, take-append, drop-append, append_assoc, AllBytes, All-append, IsByte,
}
use mathlib.Core.List.{map-append}
use cxx_library.Blob.{BlobOps}
use cxx_library.WebSocket.Frame.{Frame}
use cxx_library.WebSocket.Parser.{ParserState}
use cxx_library.WebSocket.Feed.{done, parse_data}
use cxx_library.WebSocket.Stream.{
  View, Phase, idle, need_size, need_key, need_payload, key_of, advance, Run, wait, move, emit,
}
use cxx_library.WebSocket.Stages.Fill.{view}
use cxx_library.WebSocket.Stages.Result.{pending}
use cxx_library.WebSocket.Rounds.{IsReady}
use cxx_library.WebSocket.Follow.{parse_data-Follows}

key_of-append : (xs ys : List ℕ) → 4 ≤ length xs → key_of (xs ++ ys) ≡ key_of xs
unfolding key_of
key_of-append (a ∷ b ∷ c ∷ d ∷ xs) ys h = refl
key_of-append xs ys h = absurd (omega arith)

abbrev Parts : Type 0
Parts = Phase × List ℕ × Option View

-- More bytes behind do not change a part that is complete.
advance-append :
    (p p' : Phase) (xs xs' ys : List ℕ) (e : Option View)
    → advance p xs ≡ some (p', xs', e)
    → advance p (xs ++ ys) ≡ some (p', xs' ++ ys, e)
unfolding advance
advance-append idle p' [] xs' ys e h = cc
advance-append idle p' (b0 ∷ []) xs' ys e h = cc
advance-append idle p' (b0 ∷ b1 ∷ xs) xs' ys e h = ground arith
advance-append (need_size f n) p' xs xs' ys e h =
    ground (arith, length-append xs ys, take-append n xs ys, drop-append n xs ys)
advance-append (need_key f n) p' xs xs' ys e h =
    ground (arith, length-append xs ys, key_of-append xs ys, drop-append 4 xs ys)
advance-append (need_payload f n) p' xs xs' ys e h =
    ground (arith, length-append xs ys, take-append n xs ys, drop-append n xs ys)

-- A run that waits goes on with more bytes.
Run-append :
    (zs : List ℕ) {p q r : Phase} {xs ys ws : List ℕ} {fs gs : List View}
    → Run p xs fs q ys
    → Run q (ys ++ zs) gs r ws
    → Run p (xs ++ zs) (fs ++ gs) r ws
Run-append zs (wait e) run = run
Run-append zs (move {p} {p'} {xs} {xs'} e rest) run =
    move (advance-append p p' xs xs' zs none e) (Run-append zs rest run)
Run-append zs (emit {p} {p'} {xs} {xs'} {f} e rest) run =
    emit (advance-append p p' xs xs' zs (some f) e) (Run-append zs rest run)

-- What a run comes to.
abbrev pub End : Type 0
End = List View × Phase × List ℕ

emit_more : View → End → End
emit_more f (fs, q, ys) = (f ∷ fs, q, ys)

-- A run is determined by its start.
pub Run-unique :
    {p q : Phase} {xs ys : List ℕ} {fs : List View}
    → Run p xs fs q ys
    → (p2 r : Phase) (xs2 zs : List ℕ) (gs : List View) → p ≡ p2
    → xs ≡ xs2
    → Run p2 xs2 gs r zs
    → ◌≡◌ {A = End} (fs, q, ys) (gs, r, zs)
unfolding emit_more
Run-unique (wait e) p2 r xs2 zs gs ep ex (wait e2) = λ i. ([], ep i, ex i)
Run-unique (wait e) p2 r xs2 zs gs ep ex (move e2 rest2) = cc
Run-unique (wait e) p2 r xs2 zs gs ep ex (emit e2 rest2) = cc
Run-unique (move e rest) p2 r xs2 zs gs ep ex (wait e2) = cc
Run-unique (move e rest) p2 r xs2 zs gs ep ex (move e2 rest2) =
    Run-unique rest _ r _ zs gs (cc) (cc) rest2
Run-unique (move e rest) p2 r xs2 zs gs ep ex (emit e2 rest2) = cc
Run-unique (emit e rest) p2 r xs2 zs gs ep ex (wait e2) = cc
Run-unique (emit e rest) p2 r xs2 zs gs ep ex (move e2 rest2) = cc
Run-unique (emit {f} e rest) p2 r xs2 zs gs ep ex (emit {f = g} {fs = hs} e2 rest2) =
    let same : f ≡ g = cc in
    ap (emit_more f) (Run-unique rest _ r _ zs hs (cc) (cc) rest2)
    ∙ ap (λ t. emit_more t (hs, r, zs)) same

module _ (o : BlobOps) where
  open o use {Blob}

  -- the frames with their payloads' bytes
  abbrev pub frame_views : ParserState Blob → List View
  frame_views s = map (view o) s.frames

  -- Whoever gives a stream of bytes to a parser that waits, in one call of `Add` or in two, gets the
  -- same frames, and leaves parsers that wait in the same phase with the same bytes pending.
  pub parse_data-append :
      (xs ys : List ℕ) (s : ParserState Blob) (p : Phase)
      → IsReady o s p
      → AllBytes xs
      → AllBytes ys
      → (s1 : ParserState Blob) × (s2 : ParserState Blob) × (s3 : ParserState Blob) × (q : Phase)
        × (parse_data o xs s ≡ done s1)
        × (parse_data o ys s1 ≡ done s2)
        × (parse_data o (xs ++ ys) s ≡ done s3)
        × IsReady o s2 q
        × IsReady o s3 q
        × (frame_views s2 ≡ frame_views s3)
        × (pending o s2 ≡ pending o s3)
  parse_data-append xs ys s p r hx hy =
      let (s1, e1, f1) = parse_data-Follows o xs s p r hx in
      let (s2, e2, f2) = parse_data-Follows o ys s1 f1.0 f1.2 hy in
      let (s3, e3, f3) = parse_data-Follows o (xs ++ ys) s p r (All-append IsByte xs ys hx hy) in
      let whole : Run p (pending o s ++ (xs ++ ys)) (map (view o) f1.1 ++ map (view o) f2.1) f2.0
          (pending o s2) =
        rw (← append_assoc) (Run-append ys f1.4 f2.4) in
      let same = Run-unique whole p f3.0 _ (pending o s3) _ refl refl f3.4 in
      (
        s1,
        s2,
        s3,
        f2.0,
        e1,
        e2,
        e3,
        f2.2,
        subst (IsReady o s3) (sym (ap (λ (t : End). t.1) same)) f3.2,
        added f1.1 f2.1 s1 s2 f1.3 f2.3
            ∙ ap (λ (t : End). frame_views s ++ t.0) same
            ∙ sym (ap (map (view o)) f3.3 ∙ map-append (view o) s.frames f3.1),
        ap (λ (t : End). t.2) same,
      )
    where
      added :
          (n1 n2 : List (Frame Blob)) (s1 s2 : ParserState Blob)
          → s1.frames ≡ s.frames ++ n1
          → s2.frames ≡ s1.frames ++ n2
          → frame_views s2 ≡ frame_views s ++ (map (view o) n1 ++ map (view o) n2)
      added n1 n2 s1 s2 e1 e2 = rw (e2, e1) (simp (map-append, append_assoc))
