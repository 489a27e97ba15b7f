-- ===== src/WebSocket/Follow.antt =====
-- `ParseData` of websocket/parser/parser.cpp follows the stream.
use cxx_library.Prelude.{
  ℕ, ◌*◌, ◌≤◌, ◌≡◌, refl, sym, ◌&&◌, inl, inr, List, ◌++◌, arith, ltb, ◌==◌, length, drop,
  drop-past, AllBytes, Bool-cases,
}
use cxx_library.Blob.{BlobOps, size}
use cxx_library.WebSocket.Frame.{Frame}
use cxx_library.WebSocket.Parser.{ParserState}
use cxx_library.WebSocket.Feed.{done, drop_read, cut_off, parse_data}
use cxx_library.WebSocket.Stream.{Phase}
use cxx_library.WebSocket.Stages.Result.{pending}
use cxx_library.WebSocket.Rounds.{IsReady, Follows, Waits-buffer, parse_loop_lem}

module _ (o : BlobOps) where
  open o use {Blob, bytes, shrink, chop, bytes-shrink, bytes-chop}

  -- The buffer and offset of a state are others that show the same bytes.
  abbrev Repacked : ParserState Blob → ParserState Blob → Type 0
  Repacked s s' =
      (b : Blob) × (k : ℕ) × (s' ≡ record s { buf = b; offset = k })
      × (k ≤ length (bytes b))
      × (drop k (bytes b) ≡ pending o s)

  drop_read-Repacked :
      (s : ParserState Blob) → s.offset ≤ length (bytes s.buf) → Repacked s (drop_read o s)
  unfolding drop_read
  drop_read-Repacked s fit = elim (Bool-cases (ltb 0 (size o s.buf) && size o s.buf == s.offset)) [
    | inl all ↦ (
      shrink 0 s.buf,
      0,
      rw all,
      omega arith,
      rw bytes-shrink (sym (drop-past s.offset (bytes s.buf) (ground arith))),
    )
    | inr part ↦ (s.buf, s.offset, rw part, fit, refl)
  ]

  cut_off-Repacked :
      (s : ParserState Blob) → s.offset ≤ length (bytes s.buf) → Repacked s (cut_off o s)
  unfolding cut_off
  cut_off-Repacked s fit = elim (Bool-cases (ltb (10 * 1024 * 1024) s.offset)) [
    | inl long ↦ (chop s.offset s.buf, 0, ground arith, omega arith, bytes-chop s.offset s.buf)
    | inr short ↦ (s.buf, s.offset, ground arith, fit, refl)
  ]

  Repacked-Follows :
      (p : Phase) (xs : List ℕ) (fr : List (Frame Blob)) (s s' : ParserState Blob)
      → Repacked s s'
      → Follows o p xs fr s
      → Follows o p xs fr s'
  Repacked-Follows p xs fr s s' (b, k, e, fit, same) (q, new, (w, _, octets), frames, run) =
      rw e (q, new, (Waits-buffer o s q b k w, fit, rw same octets), frames, rw same run)

  -- `ParseData` on a state that waits, given bytes: the loop ends by its tests, no `assert` fails,
  -- and the frames added and the state left are those of the stream made of the bytes pending and
  -- the new ones.
  pub parse_data-Follows :
      (chunk : List ℕ) (s : ParserState Blob) (p : Phase)
      → IsReady o s p
      → AllBytes chunk
      → (s' : ParserState Blob) × (parse_data o chunk s ≡ done s')
        × Follows o p (pending o s ++ chunk) s.frames s'
  unfolding parse_data
  parse_data-Follows chunk s p r h =
      let (s1, e1, f1) = parse_loop_lem o chunk s p r h in
      let f2 = Repacked-Follows p _ s.frames s1 _ (drop_read-Repacked s1 f1.2.1) f1 in
      let f3 =
        Repacked-Follows p _ s.frames (drop_read o s1) _ (cut_off-Repacked (drop_read o s1) f2.2.1)
          f2 in
      (cut_off o (drop_read o s1), ground (arith, e1), f3)
