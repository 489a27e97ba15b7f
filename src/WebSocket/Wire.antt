-- ===== src/WebSocket/Wire.antt =====
-- Frames of websocket/parser/parser.cpp sent over a stream and parsed at its other end.
use cxx_library.Prelude.{
  ℕ, ◌^◌, ◌<◌, ◌≡◌, refl, sym, ap, subst, ◌∙◌, inl, inr, Bool, true, false, List, [], ◌∷◌, ◌++◌,
  arith, ltb, map, length, append-nil, Bool-cases, if◌then◌else◌, AllBytes, IsByte, All-append,
}
use mathlib.Core.List.{map-append}
use cxx_library.Blob.{BlobOps, size}
use cxx_library.HostOrder.{le_bytes-AllBytes}
use cxx_library.WebSocket.Frame.{Frame, mask_bytes, size_code, to_blob, header}
use cxx_library.WebSocket.Parser.{ParserState}
use cxx_library.WebSocket.Feed.{done, init, parse_data}
use cxx_library.WebSocket.Stream.{View, Phase, idle, need_payload, Run, xor_bytes}
use cxx_library.WebSocket.Stages.Fill.{view}
use cxx_library.WebSocket.Stages.Result.{pending}
use cxx_library.WebSocket.Rounds.{IsReady}
use cxx_library.WebSocket.Follow.{parse_data-Follows}
use cxx_library.WebSocket.Chunks.{Run-unique, frame_views, End}
use cxx_library.WebSocket.Bits.{first_fields, second_fields, xor_bytes-AllBytes}
use cxx_library.WebSocket.Header.{header_bytes, bytes-header, to_blob_masked, to_blob_plain}
use cxx_library.WebSocket.RoundTrip.{
  IsSendable, announced, received, wire_payload, size_code-lt, Run-frame, Run-header,
}

coded-AllBytes : (n : ℕ) → AllBytes (size_code n).1
unfolding size_code
coded-AllBytes n = elim (Bool-cases (ltb n 126)) [
  | inl p ↦ rw p tt
  | inr p ↦ elim (Bool-cases (ltb n (2 ^ 16))) [
    | inl q ↦ rw (p, q) (le_bytes-AllBytes 2 _)
    | inr q ↦ rw (p, q) (le_bytes-AllBytes 8 _)
  ]
]

header_bytes-AllBytes : (v : View) → IsSendable v → AllBytes (header_bytes v (length v.payload))
unfolding header_bytes
header_bytes-AllBytes v h = (
  (first_fields v.is_fin v.rsv1 v.rsv2 v.rsv3 v.opcode h.opcode).5,
  (
    (second_fields v.is_masked _ (size_code-lt (length v.payload))).2,
    All-append IsByte _ _ (coded-AllBytes (length v.payload)) (key v.is_masked),
  ),
)
  where
    key : (m : Bool) → AllBytes (if m then mask_bytes v.mask else [])
    key true = h.key
    key false = tt

wire_payload-AllBytes : (v : View) → IsSendable v → AllBytes (wire_payload v)
unfolding wire_payload
wire_payload-AllBytes v h = pick v.is_masked
  where
    pick : (m : Bool) → AllBytes (if m then xor_bytes 0 v.mask v.payload else v.payload)
    pick true = xor_bytes-AllBytes 0 v.mask v.payload h.key h.octets
    pick false = h.octets

module _ (o : BlobOps) where
  open o use {Blob, bytes, bytes-empty}

  -- What a parser between frames makes of a stream whose meaning is known.
  parse-Run :
      (s : ParserState Blob) (chunk : List ℕ) (new : List View) (q : Phase)
      → IsReady o s idle
      → pending o s ≡ []
      → AllBytes chunk
      → Run idle chunk new q []
      → (s' : ParserState Blob) × (parse_data o chunk s ≡ done s')
        × IsReady o s' q
        × (pending o s' ≡ [])
        × (frame_views o s' ≡ frame_views o s ++ new)
  parse-Run s chunk new q r e h run =
      let (s', e', f) = parse_data-Follows o chunk s idle r h in
      let end = Run-unique run idle f.0 _ (pending o s') _ refl (rw e refl) f.4 in
      (
        s',
        e',
        subst (IsReady o s') (sym (ap (λ (t : End). t.1) end)) f.2,
        sym (ap (λ (t : End). t.2) end),
        ap (map (view o)) f.3
            ∙ map-append (view o) s.frames f.1
            ∙ ap (λ (t : End). frame_views o s ++ t.0) (sym end),
      )

  same_header : (f : Frame Blob) (n : ℕ) → header_bytes f n ≡ header_bytes (view o f) n
  unfolding header_bytes
  same_header f n = refl

  -- A frame's header and its payload, masked with its key if the frame is masked, given to a parser
  -- between frames: the parser adds exactly that frame, and is between frames again.
  pub parse_data-header :
      (f : Frame Blob) (s : ParserState Blob)
      → IsSendable (view o f)
      → IsReady o s idle
      → pending o s ≡ []
      → (s' : ParserState Blob) × (parse_data o (bytes (header o f) ++ wire_payload (view o f)) s
          ≡ done s')
        × IsReady o s' idle
        × (pending o s' ≡ [])
        × (frame_views o s' ≡ frame_views o s ++ (received (view o f) ∷ []))
  parse_data-header f s h r e =
      rw (bytes-header o f, same_header)
        (parse-Run s (header_bytes (view o f) (size o f.payload) ++ wire_payload (view o f))
          (received (view o f) ∷ []) idle r e
          (All-append IsByte _ _ (header_bytes-AllBytes (view o f) h)
            (wire_payload-AllBytes (view o f) h))
          (Run-frame (view o f) h))

  -- The conversion to a blob of a frame that is not masked is parsed back to that frame.
  pub parse_data-to_blob :
      (f : Frame Blob) (s : ParserState Blob)
      → f.is_masked ≡ false
      → IsSendable (view o f)
      → IsReady o s idle
      → pending o s ≡ []
      → (s' : ParserState Blob) × (parse_data o (bytes (to_blob o f)) s ≡ done s')
        × IsReady o s' idle
        × (pending o s' ≡ [])
        × (frame_views o s' ≡ frame_views o s ++ (received (view o f) ∷ []))
  parse_data-to_blob f s m h r e = rw sent (parse_data-header f s h r e)
    where
      plain : (v : View) → v.is_masked ≡ false → wire_payload v ≡ v.payload
      plain v m = unfold wire_payload in ground arith

      sent : bytes (to_blob o f) ≡ bytes (header o f) ++ wire_payload (view o f)
      sent = rw (to_blob_plain o f m, bytes-header, plain (view o f) m)

  -- The conversion to a blob of a masked frame with a payload is parsed to no frame: the parser
  -- waits for the whole payload.
  pub parse_data-to_blob_masked :
      (f : Frame Blob) (s : ParserState Blob)
      → f.is_masked ≡ true
      → 0 < size o f.payload
      → IsSendable (view o f)
      → IsReady o s idle
      → pending o s ≡ []
      → (s' : ParserState Blob) × (parse_data o (bytes (to_blob o f)) s ≡ done s')
        × IsReady o s'
            (need_payload (record (announced (view o f)) { mask = f.mask }) (size o f.payload))
        × (pending o s' ≡ [])
        × (frame_views o s' ≡ frame_views o s)
  parse_data-to_blob_masked f s m p h r e =
      let (s', e', w, none_left, frames) =
        parse-Run s (header_bytes (view o f) (size o f.payload)) []
          (need_payload (record (announced (view o f)) { mask = f.mask }) (size o f.payload)) r e
          (header_bytes-AllBytes (view o f) h) (Run-header (view o f) h m p) in
      (
        s',
        rw (to_blob_masked o f m, same_header) e',
        w,
        none_left,
        frames ∙ append-nil (frame_views o s),
      )

  -- The parser that the constructor makes is between frames.
  pub init-IsReady : IsReady o (init o) idle × (pending o (init o) ≡ [])
  init-IsReady = ((refl, omega arith, rw bytes-empty tt), bytes-empty)
