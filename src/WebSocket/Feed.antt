-- ===== src/WebSocket/Feed.antt =====
-- `ParseData` and `ExtractData` of websocket/parser/parser.cpp, which `TParser` calls.
use cxx_library.Prelude.{
  ℕ, zero, suc, ◌+◌, ◌-◌, ◌*◌, Bool, true, false, ◌&&◌, ◌||◌, Option, none, some, List, [], ltb,
  ◌==◌, if◌then◌else◌, length, drop,
}
use cxx_library.Blob.{BlobOps, size}
use cxx_library.WebSocket.Frame.{Frame}
use cxx_library.WebSocket.Parser.{ParserState, start, returned, next, fault, process_message}

-- How `ParseData` ends. `stuck` is no end of the program: the fuel of its loop ran out.
pub data Outcome (S : Type 0) : Type 0 where
  done : S → Outcome S
  faulted : Outcome S
  stuck : Outcome S

module _ (o : BlobOps) where
  open o use {Blob, bytes, empty, append, shrink, chop}

  -- the constructor's values
  abbrev pub init : ParserState Blob
  init = record {
    buf = empty;
    offset = 0;
    current_frame = none;
    size_len = 0;
    payload_len = 0;
    frames = [];
    stage = start;
  }

  -- the message of a round, and the state with the new data in the buffer; `none` is the `break`
  -- of the "weird loop"
  unfoldable pub next_message :
      Bool → List ℕ → ParserState Blob → Option (List ℕ × ParserState Blob)
  next_message first chunk s =
      if ltb 0 (size o s.buf)
      then (let s' = if first then record s { buf = append chunk s.buf } else s in
          some (drop s'.offset (bytes s'.buf), s'))
      else if first
      then some (chunk, s)
      else none

  -- `(frameCount == Frames.size()) || ((Buf.Size() - Offset) == 0)`
  unfoldable pub is_last : ParserState Blob → ParserState Blob → Bool
  is_last old new = length old.frames == length new.frames || size o new.buf - new.offset == 0

  unfoldable pub parse_loop : ℕ → Bool → List ℕ → ParserState Blob → Outcome (ParserState Blob)
  parse_loop zero first chunk s = stuck
  parse_loop (suc fuel) first chunk s = elim (next_message first chunk s) [
    | none ↦ done s
    | some (msg, s') ↦ elim (process_message o msg s') [
      | returned new ↦
          let rest = parse_loop fuel false chunk new in if is_last s new then done new else rest
      | next _ _ ↦ faulted
      | fault ↦ faulted
    ]
  ]

  -- After the loop a buffer that is read to its end is emptied, ...
  unfoldable pub drop_read : ParserState Blob → ParserState Blob
  drop_read s =
      if ltb 0 (size o s.buf) && size o s.buf == s.offset
      then record s { buf = shrink 0 s.buf; offset = 0 }
      else s

  -- ... and a long read part is cut off.
  unfoldable pub cut_off : ParserState Blob → ParserState Blob
  cut_off s =
      if ltb (10 * 1024 * 1024) s.offset
      then record s { buf = chop s.offset s.buf; offset = 0 }
      else s

  -- Each round but the first takes two bytes at least, so that the fuel suffices.
  unfoldable pub parse_data : List ℕ → ParserState Blob → Outcome (ParserState Blob)
  unfolding parse_loop
  parse_data chunk s = elim (parse_loop (size o s.buf + length chunk + 2) true chunk s) [
    | done s' ↦ done (cut_off (drop_read s'))
    | faulted ↦ faulted
    | stuck ↦ stuck
  ]

  -- the frames, and the parser without them
  unfoldable pub extract_data : ParserState Blob → List (Frame Blob) × ParserState Blob
  extract_data s = (s.frames, record s { frames = [] })
