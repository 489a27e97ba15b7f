-- ===== src/HttpLike/Line.antt =====
-- `ParseLine` of httplike/parser/parser.cpp. A line is the memory from its pointer on and its size.
use cxx_library.Prelude.{
  ℕ, ◌+◌, ◌-◌, ◌*◌, ◌%◌, ◌^◌, Bool, true, false, not, ◌&&◌, ◌||◌, Option, none, some, List, [], ◌∷◌,
  ◌++◌, ltb, leb, ◌==◌, if◌then◌else◌, length, take, drop, get_or, same_bytes,
}
use cxx_library.Blob.{BlobOps, size}
use cxx_library.HttpLike.Kit.{Kit}
use cxx_library.HttpLike.State.{
  Headers, add_header, find_header, Result, ok, thrown, fault, ◌>>=◌, State, append_request,
  last_char, flush,
}

-- `(lineSize == 0) || ((lineSize == 1) && (line[0] == '\r'))`
unfoldable pub is_blank : ℕ → List ℕ → Bool
is_blank n line = n == 0 || (n == 1 && get_or line 0 0 == 13)

-- `hex`; a char of 128 or more is a negative index where `char` is signed.
unfoldable pub hex_value : ℕ → Option ℕ
hex_value c =
    if leb 128 c
    then none
    else if leb 49 c && leb c 57
    then some (c - 48)
    else if leb 65 c && leb c 70
    then some (c - 55)
    else if leb 97 c && leb c 102
    then some (c - 87)
    else some 0

-- the bytes before the first `'\r'`
unfoldable pub before_cr : List ℕ → List ℕ
before_cr [] = []
before_cr (c ∷ cs) = let rest = before_cr cs in if c == 13 then [] else c ∷ rest

-- `(size_t)powl(16, n)`; a power that 64 bits do not hold leaves the cast undefined.
unfoldable pub power_of_16 : ℕ → Option ℕ
power_of_16 n = if ltb n 16 then some (16 ^ n) else none

-- the loop that adds up the digits of a chunk's size
unfoldable pub add_digits : List ℕ → ℕ → Option ℕ
unfolding power_of_16
add_digits [] n = some n
add_digits (c ∷ cs) n = elim (hex_value c) [
  | none ↦ none
  | some d ↦ elim (power_of_16 (length cs)) [
    | none ↦ none
    | some p ↦ add_digits cs ((n + d * p) % 2 ^ 64)
  ]
]

-- the lines of a request, and what follows the last of them if it is not empty
unfoldable pub split_lines : List ℕ → List ℕ → List (List ℕ)
split_lines cur [] = if ltb 0 (length cur) then cur ∷ [] else []
split_lines cur (c ∷ cs) =
    let rest = split_lines [] cs in
    let longer = split_lines (cur ++ (c ∷ [])) cs in if c == 10 then cur ∷ rest else longer

-- what follows the last `'\n'`
unfoldable pub last_line : List ℕ → List ℕ → List ℕ
last_line cur [] = cur
last_line cur (c ∷ cs) =
    let rest = last_line [] cs in
    let longer = last_line (cur ++ (c ∷ [])) cs in if c == 10 then rest else longer

-- the bytes before the first `':'`, and those behind it
unfoldable pub split_colon : List ℕ → Option (List ℕ × List ℕ)
split_colon [] = none
split_colon (c ∷ cs) =
    let rest = split_colon cs in
    if c == 58
    then some ([], cs)
    else elim rest [ none ↦ none | some (key, value) ↦ some (c ∷ key, value) ]

abbrev pub transfer_encoding : List ℕ
transfer_encoding =
    b't' ∷ b'r' ∷ b'a' ∷ b'n' ∷ b's' ∷ b'f' ∷ b'e' ∷ b'r' ∷ b'-' ∷ b'e' ∷ b'n' ∷ b'c' ∷ b'o' ∷ b'd'
    ∷ b'i' ∷ b'n' ∷ b'g' ∷ []

abbrev pub chunked_value : List ℕ
chunked_value = b'c' ∷ b'h' ∷ b'u' ∷ b'n' ∷ b'k' ∷ b'e' ∷ b'd' ∷ []

abbrev pub content_length_key : List ℕ
content_length_key =
    b'c' ∷ b'o' ∷ b'n' ∷ b't' ∷ b'e' ∷ b'n' ∷ b't' ∷ b'-' ∷ b'l' ∷ b'e' ∷ b'n' ∷ b'g' ∷ b't' ∷ b'h'
    ∷ []

module _ (k : Kit) (o : BlobOps) where
  open k use {Disk, bytes, has_data, wrap, strip, to_lower, atoi}
  open o use {Blob, shrink}

  -- `localState.ProcessedLength += 1` for the `'\n'`, if there is one
  unfoldable pub pass_newline : ℕ → State k o → State k o
  pass_newline data_size s =
      if ltb s.processed data_size then record s { processed = s.processed + 1 } else s

  -- The loop over the lines that follow the first one: a header.
  unfoldable pub read_header : List ℕ → Headers × Bool → Headers × Bool
  unfolding is_blank
  read_header line (hs, chunked) =
      if is_blank (length line) line then (hs, chunked) else elim (split_colon line) [
        | none ↦ (hs, chunked)
        | some (before, behind) ↦
            let key = to_lower (strip before) in
            let value = strip behind in
            if same_bytes key transfer_encoding && same_bytes (to_lower value) chunked_value
            then (hs, true)
            else (add_header key value hs, chunked)
      ]

  unfoldable pub read_headers : List (List ℕ) → Headers × Bool → Headers × Bool
  read_headers [] acc = acc
  read_headers (line ∷ rest) acc = read_headers rest (read_header line acc)

  unfoldable pub name_first : List (List ℕ) → State k o → State k o
  name_first [] s = s
  name_first (line ∷ rest) s =
      if s.no_first_line then s else record s { first_line = some (strip line) }

  unfoldable pub set_headers : Headers × Bool → State k o → State k o
  set_headers (hs, chunked) s = record s { headers = hs; chunked = chunked }

  -- `CurrentFirstLine` and the headers from the lines of the request
  unfoldable pub read_request : List (List ℕ) → State k o → State k o
  unfolding read_headers name_first set_headers
  read_request lines s =
      set_headers
        (read_headers (if s.no_first_line then lines else drop 1 lines) (s.headers, s.chunked))
        (name_first lines s)

  unfoldable pub give_length : ℕ → State k o → State k o
  give_length n s = record s { content_length = n; original_length = n }

  -- the lengths of the content, from the values of its header
  unfoldable pub announce : ℕ → Option (List (List ℕ)) → State k o → Result (State k o)
  unfolding give_length
  announce data_size (some (v ∷ vs)) s = ok (give_length (atoi v) s)
  announce data_size (some []) s = fault
  announce data_size none s =
      if s.infer_length
      then ok (give_length ((data_size + 2 ^ 64 - s.processed) % 2 ^ 64) s)
      else ok s

  -- `InContent`
  unfoldable pub enter_content : State k o → State k o
  enter_content s = record s { in_content = ltb 0 s.original_length || s.chunked }

  unfoldable pub set_length : ℕ → State k o → Result (State k o)
  unfolding announce enter_content
  set_length data_size s =
      announce data_size (find_header content_length_key s.headers) s >>= λ t. ok (enter_content t)

  -- a message without content is complete
  unfoldable pub leave_headers : Result (State k o) → Result (State k o)
  leave_headers s = s >>= λ t. if t.in_content then ok t else flush k o t

  -- What the blank line behind the headers does.
  unfoldable pub finish_headers : ℕ → State k o → Result (State k o)
  unfolding read_request set_length leave_headers
  finish_headers data_size s =
      if ltb (length (bytes s.request)) s.effective
      then fault
      else leave_headers (
          set_length data_size
            (read_request (split_lines [] (take s.effective (bytes s.request))) s))

  -- `takeLastLine`
  unfoldable pub takes_last : State k o → Bool
  takes_last s = s.stream && s.is_first && ltb 0 s.effective && not (last_char k o s == 10)

  unfoldable pub keep_text : List ℕ → ℕ → State k o → State k o
  keep_text line n s = if ltb 0 n then append_request k o (take n line) s else s

  -- the `'\n'` behind a line, if it is in the data
  unfoldable pub keep_newline : ℕ → State k o → State k o
  unfolding pass_newline
  keep_newline data_size s =
      if ltb s.processed data_size
      then append_request k o (10 ∷ []) (pass_newline data_size s)
      else s

  -- the line to look at: the one given, or what follows the last `'\n'` of the request
  unfoldable pub current_line : Bool → List ℕ → State k o → Result (List ℕ)
  current_line true text s =
      if ltb (length (bytes s.request)) s.effective
      then fault
      else ok (last_line [] (take s.effective (bytes s.request)))
  current_line false text s = ok text

  unfoldable pub not_first : State k o → State k o
  not_first s = record s { is_first = false }

  unfoldable pub end_line : ℕ → List ℕ → State k o → Result (State k o)
  unfolding is_blank finish_headers
  end_line data_size line s =
      if is_blank (length line) line then finish_headers data_size s else ok s

  unfoldable pub finish_line : ℕ → State k o → Result (List ℕ) → Result (State k o)
  unfolding end_line not_first
  finish_line data_size s line = line >>= λ l. end_line data_size l s >>= λ t. ok (not_first t)

  -- `if (!state.InContent)` and the assignment behind it. The `'\n'` is kept before the last line is
  -- looked for if it follows some text, and behind that otherwise.
  unfoldable pub header_line : ℕ → List ℕ → ℕ → State k o → Result (State k o)
  unfolding current_line finish_line
  header_line data_size line n s =
      let added = keep_text line n s in
      let ended = keep_newline data_size added in
      finish_line data_size ended
        (current_line (takes_last s) (take n line) (if ltb 0 n then ended else added))

  -- the text of a chunk's size, with what was left of it by the call before
  unfoldable pub buffer_line : List ℕ → ℕ → State k o → State k o
  buffer_line line n s = record s { buf = o.append (take n line) s.buf }

  unfoldable pub size_text : List ℕ → ℕ → State k o → List ℕ
  unfolding buffer_line
  size_text line n s =
      if ltb 0 (size o s.buf) then o.bytes (buffer_line line n s).buf else take n line

  -- the size of a chunk is known
  unfoldable pub open_chunk : ℕ → State k o → State k o
  open_chunk len s = record s {
    content_length = len;
    original_length = (s.original_length + len) % 2 ^ 64;
    buf = shrink 0 s.buf;
  }

  unfoldable pub begin_chunk : Option ℕ → State k o → Result (State k o)
  unfolding open_chunk
  begin_chunk none s = fault
  begin_chunk (some len) s =
      if len == 0 then flush k o (open_chunk len s) else ok (open_chunk len s)

  -- the line that holds the size of a chunk
  unfoldable pub chunk_line : ℕ → List ℕ → ℕ → State k o → Result (State k o)
  unfolding begin_chunk
  chunk_line data_size line n s =
      if leb data_size s.processed
      then ok (if ltb 0 n then buffer_line line n s else s)
      else begin_chunk (add_digits (before_cr (size_text line n s)) s.content_length)
          (pass_newline data_size (if ltb 0 (size o s.buf) then buffer_line line n s else s))

  -- `ContentLength` bytes of the line are content
  unfoldable pub take_content : List ℕ → State k o → State k o
  take_content line s =
      if ltb 0 s.content_length
      then record (append_request k o (take s.content_length line) s) { content_length = 0 }
      else s

  -- What follows the content in its last line: where the code goes on.
  unfoldable pub leave_content :
      ℕ → List ℕ → ℕ → State k o → Result (State k o × Option (List ℕ × ℕ))
  leave_content data_size line n s =
      if s.chunked
      then (if ltb 1 n || (n == 1 && not (get_or line 0 0 == 13))
          then thrown
          else ok (pass_newline data_size s, none))
      else flush k o (if n == 0 then pass_newline data_size s else s) >>= λ u.
          ok (u, if n == 0 then none else some (line, n))

  -- A line that holds the rest of the content, at least.
  unfoldable pub last_content :
      ℕ → List ℕ → ℕ → State k o → Result (State k o × Option (List ℕ × ℕ))
  unfolding leave_content take_content
  last_content data_size line n s =
      leave_content data_size (drop s.content_length line) (n - s.content_length)
        (take_content line s)

  -- a line of the content, which goes on behind it
  unfoldable pub take_text : List ℕ → ℕ → State k o → State k o
  take_text line n s =
      if ltb 0 n
      then record (append_request k o (take n line) s) { content_length = s.content_length - n }
      else s

  unfoldable pub take_newline : State k o → State k o
  take_newline s = record (append_request k o (10 ∷ []) s) {
    processed = s.processed + 1;
    content_length = s.content_length - 1;
  }

  -- no content is left
  unfoldable pub end_content : State k o → Result (State k o)
  end_content s = if s.content_length == 0 && not s.chunked then flush k o s else ok s

  unfoldable pub more_content : ℕ → State k o → Result (State k o)
  unfolding end_content take_newline
  more_content data_size s =
      if ltb s.processed data_size then end_content (take_newline s) else ok s

  unfoldable pub content_line :
      ℕ → List ℕ → ℕ → State k o → Result (State k o × Option (List ℕ × ℕ))
  unfolding chunk_line last_content more_content
  content_line data_size line n s =
      if s.chunked && s.content_length == 0
      then (chunk_line data_size line n s >>= λ t. ok (t, none))
      else if leb s.content_length n
      then last_content data_size line n s
      else (more_content data_size (take_text line n s) >>= λ t. ok (t, none))

  unfoldable pub go_on : ℕ → State k o × Option (List ℕ × ℕ) → Result (State k o)
  unfolding header_line
  go_on data_size (s, none) = ok s
  go_on data_size (s, some (line, n)) = header_line data_size line n s

  -- `CurrentRequest.Wrap`, when nothing is copied
  unfoldable pub wrap_data : ℕ → List ℕ → State k o → State k o
  wrap_data data_size line s =
      if not (has_data s.request) && not s.copy
      then record s { request = wrap (take data_size line) }
      else s

  unfoldable pub keep_line : ℕ → List ℕ → ℕ → State k o → Result (State k o)
  unfolding go_on content_line
  keep_line data_size line n s =
      if s.in_content
      then (content_line data_size line n s >>= go_on data_size)
      else header_line data_size line n s

  -- `localState.ProcessedLength += lineSize`
  unfoldable pub count : ℕ → State k o → State k o
  count n s = record s { processed = s.processed + n }

  -- `ParseLine` behind its first assignment: blank lines before a message are skipped
  unfoldable pub counted_line : ℕ → List ℕ → ℕ → State k o → Result (State k o)
  unfolding is_blank keep_line wrap_data
  counted_line data_size line n s =
      if s.effective == 0 && is_blank n line
      then ok (if n == 1 then pass_newline data_size s else s)
      else keep_line data_size line n (wrap_data data_size line s)

  -- `ParseLine`
  unfoldable pub parse_line : ℕ → List ℕ → ℕ → State k o → Result (State k o)
  unfolding counted_line count
  parse_line data_size line n s = counted_line data_size line n (count n s)
