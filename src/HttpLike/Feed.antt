-- ===== src/HttpLike/Feed.antt =====
-- `ParseData` of httplike/parser/parser.cpp and the methods of `TParser`.
use cxx_library.Prelude.{
  ℕ, zero, suc, ◌+◌, Bool, true, false, List, [], ◌∷◌, ltb, ◌==◌, if◌then◌else◌,
}
use cxx_library.Blob.{BlobOps}
use cxx_library.HttpLike.Kit.{Kit}
use cxx_library.HttpLike.State.{ParsedData, Result, ok, fault, ◌>>=◌, State}
use cxx_library.HttpLike.Line.{parse_line}

module _ (k : Kit) (o : BlobOps) where
  -- The loop over the data: the bytes left of it, the memory from the next byte on, and the line
  -- that began before, as the memory from its first byte on and its size so far.
  unfoldable pub scan : ℕ → ℕ → List ℕ → List ℕ → ℕ → State k o → Result (State k o)
  scan data_size zero mem line n s = if ltb 0 n then parse_line k o data_size line n s else ok s
  scan data_size (suc left) [] line n s = fault
  scan data_size (suc left) (c ∷ mem) line n s =
      let cut = parse_line k o data_size line n s >>= λ t. scan data_size left mem mem 0 t in
      let on = scan data_size left mem line (n + 1) s in if c == 10 then cut else on

  -- `TParser::Add` and `ParseData`: `dataSize` bytes of the memory at `data`
  unfoldable pub add : ℕ → List ℕ → State k o → Result (State k o)
  unfolding scan
  add data_size mem s =
      scan data_size data_size mem mem 0 (record s { processed = 0; is_first = true })

  -- `TParser::Message`
  unfoldable pub message : ℕ → List ℕ → Bool → State k o → Result (State k o)
  message data_size mem copy s =
      add data_size mem (record s { infer_length = true; copy = copy; stream = false })

  -- `TParser::MessageNoFirstLine`
  unfoldable pub message_no_first_line : ℕ → List ℕ → Bool → State k o → Result (State k o)
  message_no_first_line data_size mem copy s =
      message data_size mem copy (record s { no_first_line = true })

  -- `TParser::ExtractData`
  unfoldable pub extract_data : State k o → List ParsedData × State k o
  extract_data s = (s.parsed, record s { parsed = [] })
