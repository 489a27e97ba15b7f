-- ===== src/WebSocket/Parser.antt =====
-- `TParserState` of websocket/parser/parser.cpp: `ProcessMessage`, `ParseData`, `Flush`, `ExtractData`.
-- A message is the list of the bytes that the non-owning blob `msg` shows.
use cxx_library.Prelude.{
  ℕ, zero, suc, ◌+◌, ◌-◌, Bool, not, ◌&&◌, Option, none, some, List, [], ◌∷◌, ◌++◌, bit_and,
  bit_xor, ltb, leb, ◌==◌, if◌then◌else◌, get_or, length, take, drop,
}
use cxx_library.Blob.{BlobOps, size}
use cxx_library.HostOrder.{of_le_bytes, swap16, swap64}
use cxx_library.WebSocket.Frame.{Frame, MaskKey, no_mask, mask_at}

-- `TStage`
pub data Stage : Type 0 where
  start payload_size mask_key payload_bytes : Stage

-- the fields of `TParserState`, over the type of blobs
pub record ParserState (B : Type 0) : Type 0 where
  pub buf : B
  pub offset : ℕ
  pub current_frame : Option (Frame B)
  pub size_len : ℕ
  pub payload_len : ℕ
  pub frames : List (Frame B)
  pub stage : Stage

-- How a part of `ProcessMessage` ends: by a return, by going on at an offset of the message, or by
-- a failed `assert` or a null pointer.
pub data Flow (S : Type 0) : Type 0 where
  returned : S → Flow S
  next : S → ℕ → Flow S
  fault : Flow S

infixl 5 ◌>>=◌
abbrev pub ◌>>=◌ : {S : Type 0} → Flow S → (S → ℕ → Flow S) → Flow S
returned s >>= f = returned s
next s off >>= f = f s off
fault >>= f = fault

-- a bit of a byte, as a `bool`
unfoldable pub has_bit : ℕ → ℕ → Bool
has_bit b bit = not (bit_and b bit == 0)

-- the `switch (SizeLen)`, at the bytes from `&data[msgOffset]` on
unfoldable pub read_length : ℕ → List ℕ → Option ℕ
read_length n xs =
    if n == 2
    then some (swap16 (of_le_bytes (take 2 xs)))
    else if n == 8
    then some (swap64 (of_le_bytes (take 8 xs)))
    else none

-- `memcpy` into `Mask`
unfoldable pub key_at : List ℕ → MaskKey
key_at xs = record {
  k0 = get_or xs 0 0;
  k1 = get_or xs 1 0;
  k2 = get_or xs 2 0;
  k3 = get_or xs 3 0;
}

module _ (o : BlobOps) where
  open o use {Blob, bytes, empty, reserve, append, store, shrink, chop}

  unfoldable pub new_frame : ℕ → ℕ → Frame Blob
  unfolding has_bit
  new_frame first second = record {
    is_fin = has_bit first 128;
    rsv1 = has_bit first 64;
    rsv2 = has_bit first 32;
    rsv3 = has_bit first 16;
    is_masked = has_bit second 128;
    opcode = bit_and first 15;
    mask = no_mask;
    payload = empty;
  }

  -- `if (Buf.Size() > 0) Offset += n`
  unfoldable pub skip : ℕ → ParserState Blob → ParserState Blob
  skip n s = if ltb 0 (size o s.buf) then record s { offset = s.offset + n } else s

  -- The rest of the message goes to the buffer, if that is empty.
  unfoldable pub bufferize : List ℕ → ℕ → ParserState Blob → ParserState Blob
  bufferize msg off s =
      if (size o s.buf == 0) && ltb 0 (length msg - off)
      then record s { buf = append (drop off msg) s.buf }
      else s

  -- the two bytes that begin a frame
  unfoldable pub open_frame : ℕ → ℕ → ParserState Blob → ParserState Blob
  unfolding new_frame
  open_frame first second s =
      let code = if has_bit second 128 then bit_xor second 128 else second in
      let s' = record s { current_frame = some (new_frame first second) } in
      if code == 127
      then record s' { size_len = 8 }
      else if code == 126
      then record s' { size_len = 2 }
      else record s' { payload_len = code }

  unfoldable pub read_head : List ℕ → ParserState Blob → Flow (ParserState Blob)
  unfolding skip open_frame
  read_head msg s = elim s.current_frame [
    | some f ↦ next s 0
    | none ↦
        if leb 2 (length msg)
        then next (open_frame (get_or msg 0 0) (get_or msg 1 0) (skip 2 s)) 2
        else returned (if size o s.buf == 0 then record s { buf = append msg s.buf } else s)
  ]

  -- `STAGE_START` ends once there is a frame.
  unfoldable pub leave_start : ParserState Blob → ParserState Blob
  leave_start s = elim s.stage [
    | start ↦ record s { stage = if ltb 0 s.size_len then payload_size else mask_key }
    | _ ↦ s
  ]

  unfoldable pub read_size : List ℕ → ParserState Blob → ℕ → Flow (ParserState Blob)
  unfolding bufferize skip
  read_size msg s off = elim s.stage [
    | payload_size ↦
        if ltb (length msg - off) s.size_len
        then returned (bufferize msg off s)
        else elim (read_length s.size_len (drop off msg)) [
          | none ↦ fault
          | some n ↦
              next
                (record (skip s.size_len (record s { payload_len = n; stage = mask_key })) {
                  size_len = 0;
                })
                (off + s.size_len)
        ]
    | _ ↦ next s off
  ]

  unfoldable pub read_key : List ℕ → ParserState Blob → ℕ → Flow (ParserState Blob)
  unfolding bufferize skip key_at
  read_key msg s off = elim s.stage [
    | mask_key ↦ elim s.current_frame [
      | none ↦ fault
      | some f ↦
          if f.is_masked
          then (if ltb (length msg - off) 4
              then returned (bufferize msg off s)
              else next
                  (skip 4 (record s {
                    current_frame = some (record f { mask = key_at (drop off msg) });
                    stage = payload_bytes;
                  }))
                  (off + 4))
          else next (record s { stage = payload_bytes }) off
    ]
    | _ ↦ next s off
  ]

  -- the loop that unmasks a payload in place
  unfoldable pub unmask_loop : ℕ → ℕ → MaskKey → Blob → Blob
  unmask_loop zero i key b = b
  unmask_loop (suc n) i key b =
      unmask_loop n (i + 1) key (store i (bit_xor (get_or (bytes b) i 0) (mask_at key i)) b)

  -- `Flush`, of the frame `f`
  unfoldable pub flush : Frame Blob → ParserState Blob → ParserState Blob
  flush f s = record s {
    frames = s.frames ++ (f ∷ []);
    current_frame = none;
    size_len = 0;
    payload_len = 0;
    stage = start;
  }

  -- the frame with its payload read
  unfoldable pub fill : Frame Blob → ℕ → List ℕ → Frame Blob
  unfolding unmask_loop
  fill f n xs =
      let p = append (take n xs) (reserve n f.payload) in
      record f { payload = if f.is_masked then unmask_loop n 0 f.mask p else p }

  unfoldable pub read_payload : List ℕ → ParserState Blob → ℕ → Flow (ParserState Blob)
  unfolding bufferize skip flush fill
  read_payload msg s off = elim s.stage [
    | payload_bytes ↦ elim s.current_frame [
      | none ↦ fault
      | some f ↦
          if s.payload_len == 0
          then returned (bufferize msg off (flush f s))
          else if leb s.payload_len (length msg - off)
          then returned (
              bufferize msg (off + s.payload_len)
                (flush (fill f s.payload_len (drop off msg)) (skip s.payload_len s)))
          else returned (bufferize msg off s)
    ]
    | _ ↦ fault
  ]

  -- `ProcessMessage`
  unfoldable pub process_message : List ℕ → ParserState Blob → Flow (ParserState Blob)
  unfolding read_head leave_start read_size read_key read_payload
  process_message msg s = read_head msg s >>= λ s off.
      read_size msg (leave_start s) off >>= λ s off.
      read_key msg s off >>= λ s off. read_payload msg s off
