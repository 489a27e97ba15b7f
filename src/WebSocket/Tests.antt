-- ===== src/WebSocket/Tests.antt =====
-- Runs of websocket/parser/parser.cpp, and its theorems at concrete inputs.
use cxx_library.Prelude.{ℕ, ◌≡◌, refl, true, false, some, List, [], ◌∷◌, ◌++◌, arith}
use cxx_library.Blob.Bare.{bare_blobs}
use cxx_library.WebSocket.Frame.{Frame, MaskKey, no_mask, first_byte, size_code, to_blob, header}
use cxx_library.WebSocket.Parser.{ParserState, payload_bytes, process_message}
use cxx_library.WebSocket.Feed.{done, init, next_message, is_last, drop_read, cut_off, parse_data}
use cxx_library.WebSocket.Stream.{Phase, idle, need_payload}
use cxx_library.WebSocket.Stages.Fill.{view}
use cxx_library.WebSocket.Stages.Result.{pending}
use cxx_library.WebSocket.Rounds.{IsReady, Follows}
use cxx_library.WebSocket.Follow.{parse_data-Follows}
use cxx_library.WebSocket.Chunks.{frame_views, parse_data-append}
use cxx_library.WebSocket.RoundTrip.{IsSendable, wire_payload}
use cxx_library.WebSocket.Wire.{
  parse_data-header, parse_data-to_blob, parse_data-to_blob_masked, init-IsReady,
}

abbrev ini : ParserState (List ℕ)
ini = init bare_blobs

-- a final text frame "Hi", not masked
abbrev hi : Frame (List ℕ)
hi = record {
  is_fin = true;
  rsv1 = false;
  rsv2 = false;
  rsv3 = false;
  is_masked = false;
  opcode = 1;
  mask = no_mask;
  payload = b'H' ∷ b'i' ∷ [];
}

abbrev key : MaskKey
key = record { k0 = 1; k1 = 2; k2 = 3; k3 = 4 }

abbrev masked_hi : Frame (List ℕ)
masked_hi = record hi { is_masked = true; mask = key }

abbrev wire_hi : List ℕ
wire_hi = 0x81 ∷ 2 ∷ b'H' ∷ b'i' ∷ []

to_blob_runs : to_blob bare_blobs hi ≡ wire_hi
unfolding to_blob header first_byte size_code
to_blob_runs = refl

-- two calls, cut inside the payload
parse_runs :
    parse_data bare_blobs (0x81 ∷ 2 ∷ b'H' ∷ []) ini
    ≡ done (record ini {
      buf = b'H' ∷ [];
      current_frame = some (record hi { payload = [] });
      payload_len = 2;
      stage = payload_bytes;
    })
unfolding parse_data next_message is_last drop_read cut_off process_message
parse_runs = refl

parse_data-Follows_example :
    (s : ParserState (List ℕ)) × (parse_data bare_blobs (wire_hi ++ (0x81 ∷ [])) ini ≡ done s)
    × Follows bare_blobs idle (wire_hi ++ (0x81 ∷ [])) [] s
parse_data-Follows_example =
    parse_data-Follows bare_blobs (wire_hi ++ (0x81 ∷ [])) ini idle (init-IsReady bare_blobs).0
      (omega arith)

parse_data-append_example :
    (s1 : ParserState (List ℕ)) × (s2 : ParserState (List ℕ)) × (s3 : ParserState (List ℕ))
    × (q : Phase) × (parse_data bare_blobs (0x81 ∷ 2 ∷ b'H' ∷ []) ini ≡ done s1)
    × (parse_data bare_blobs (b'i' ∷ 0x81 ∷ []) s1 ≡ done s2)
    × (parse_data bare_blobs (0x81 ∷ 2 ∷ b'H' ∷ b'i' ∷ 0x81 ∷ []) ini ≡ done s3)
    × IsReady bare_blobs s2 q
    × IsReady bare_blobs s3 q
    × (frame_views bare_blobs s2 ≡ frame_views bare_blobs s3)
    × (pending bare_blobs s2 ≡ pending bare_blobs s3)
parse_data-append_example =
    parse_data-append bare_blobs (0x81 ∷ 2 ∷ b'H' ∷ []) (b'i' ∷ 0x81 ∷ []) ini idle
      (init-IsReady bare_blobs).0 (omega arith) (omega arith)

masked_hi-IsSendable : IsSendable (view bare_blobs masked_hi)
masked_hi-IsSendable = omega arith

hi-IsSendable : IsSendable (view bare_blobs hi)
hi-IsSendable = omega arith

parse_data-header_example :
    (s : ParserState (List ℕ)) × (parse_data bare_blobs
        (header bare_blobs masked_hi ++ wire_payload masked_hi)
        ini
      ≡ done s)
    × IsReady bare_blobs s idle
    × (pending bare_blobs s ≡ [])
    × (frame_views bare_blobs s ≡ masked_hi ∷ [])
parse_data-header_example =
    parse_data-header bare_blobs masked_hi ini masked_hi-IsSendable (init-IsReady bare_blobs).0 refl

parse_data-to_blob_example :
    (s : ParserState (List ℕ)) × (parse_data bare_blobs (to_blob bare_blobs hi) ini ≡ done s)
    × IsReady bare_blobs s idle
    × (pending bare_blobs s ≡ [])
    × (frame_views bare_blobs s ≡ hi ∷ [])
parse_data-to_blob_example =
    parse_data-to_blob bare_blobs hi ini refl hi-IsSendable (init-IsReady bare_blobs).0 refl

parse_data-to_blob_masked_example :
    (s : ParserState (List ℕ)) × (parse_data bare_blobs (to_blob bare_blobs masked_hi) ini ≡ done s)
    × IsReady bare_blobs s (need_payload (record masked_hi { payload = [] }) 2)
    × (pending bare_blobs s ≡ [])
    × (frame_views bare_blobs s ≡ [])
parse_data-to_blob_masked_example =
    parse_data-to_blob_masked bare_blobs masked_hi ini refl (omega arith) masked_hi-IsSendable
      (init-IsReady bare_blobs).0 refl
