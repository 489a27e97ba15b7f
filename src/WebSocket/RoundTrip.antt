-- ===== src/WebSocket/RoundTrip.antt =====
-- A frame as `TFrame::Header` announces it, read back.
use cxx_library.Prelude.{
  ℕ, ◌%◌, ◌^◌, ◌<◌, ◌≡◌, refl, ap, subst, ◌∙◌, inl, inr, Bool, true, false, none, some, List, [],
  ◌∷◌, ◌++◌, arith, ltb, length, length-append, take-append, drop-append, take_all, drop-past,
  append_assoc, append-nil, Bool-cases, if◌then◌else◌, AllBytes,
}
use cxx_library.HostOrder.{
  of_be_bytes, of_be_bytes-htons, of_be_bytes-htonll, length-le_bytes, swap16, swap64,
}
use cxx_library.WebSocket.Frame.{MaskKey, mask_bytes, no_mask, or_flag, first_byte, size_code}
use cxx_library.WebSocket.Stream.{
  View, Phase, idle, need_size, need_key, need_payload, opened, after_head, key_of, xor_bytes,
  filled, advance, Run, wait, move, emit,
}
use cxx_library.WebSocket.Stages.Size.{advance_size}
use cxx_library.WebSocket.Stages.Payload.{advance_payload}
use cxx_library.WebSocket.Stages.Head.{
  advance_idle, after_head_long, after_head_short, after_head_small,
}
use cxx_library.WebSocket.Bits.{first_fields, second_fields, length-xor_bytes, xor_bytes_twice}
use cxx_library.WebSocket.Header.{header_bytes}

-- A frame that can be sent: an opcode of four bits, a key and a payload of bytes, and a size that
-- 64 bits hold.
pub record IsSendable (v : View) : Type 0 where
  pub opcode : v.opcode < 16
  pub key : AllBytes (mask_bytes v.mask)
  pub octets : AllBytes v.payload
  pub fits : length v.payload < 2 ^ 64

-- what is read back of the header: a key is sent with a masked frame only
abbrev pub announced : View → View
announced v = record v { mask = no_mask; payload = [] }

opened_back :
    (v : View) (n : ℕ)
    → v.opcode < 16
    → n < 128
    → opened (first_byte v.is_fin v.rsv1 v.rsv2 v.rsv3 v.opcode) (or_flag v.is_masked 128 n)
      ≡ announced v
unfolding opened
opened_back v n h k =
    let (fin, r1, r2, r3, op, byte) = first_fields v.is_fin v.rsv1 v.rsv2 v.rsv3 v.opcode h in
    λ i. record {
      is_fin = fin i;
      rsv1 = r1 i;
      rsv2 = r2 i;
      rsv3 = r3 i;
      is_masked = (second_fields v.is_masked n k).0 i;
      opcode = op i;
      mask = no_mask;
      payload = [];
    }

key_part :
    (key : MaskKey) (f : View) (n : ℕ) (xs : List ℕ)
    → f.is_masked ≡ true
    → advance (need_key f n) (mask_bytes key ++ xs)
      ≡ some (need_payload (record f { mask = key }) n, xs, none)
unfolding advance key_of
key_part key f n xs e = ground arith

no_key_part :
    (f : View) (n : ℕ) (xs : List ℕ)
    → f.is_masked ≡ false
    → advance (need_key f n) xs ≡ some (need_payload f n, xs, none)
unfolding advance
no_key_part f n xs e = ground arith

-- From the mask key on.
Run-key :
    (m : Bool) (key : MaskKey) (f : View) (n : ℕ) (xs : List ℕ) {fs : List View} {q : Phase}
    {ys : List ℕ}
    → f.is_masked ≡ m
    → Run (need_payload (record f { mask = if m then key else f.mask }) n) xs fs q ys
    → Run (need_key f n) ((if m then mask_bytes key else []) ++ xs) fs q ys
Run-key true key f n xs e run = move (key_part key f n xs e) run
Run-key false key f n xs e run = move (no_key_part f n xs e) run

Run-size :
    (f : View) (k n : ℕ) (coded xs : List ℕ) {fs : List View} {q : Phase} {ys : List ℕ}
    → length coded ≡ k
    → of_be_bytes 0 coded ≡ n
    → Run (need_key f n) xs fs q ys
    → Run (need_size f k) (coded ++ xs) fs q ys
Run-size f k n coded xs h e run =
    move
      (advance_size f k (coded ++ xs) (omega (arith, length-append coded xs))
        ∙ rw (
          take-append k coded xs (omega arith),
          take_all k coded h,
          e,
          drop-append k coded xs (omega arith),
          drop-past k coded (omega arith),
        ))
      run

-- From the size's code on.
Run-code :
    (f : View) (n : ℕ) (xs : List ℕ) {fs : List View} {q : Phase} {ys : List ℕ}
    → n < 2 ^ 64
    → Run (need_key f n) xs fs q ys
    → Run (after_head f (size_code n).0) ((size_code n).1 ++ xs) fs q ys
unfolding size_code
Run-code f n xs h run = elim (Bool-cases (ltb n 126)) [
  | inl p ↦ rw (p, after_head_small f n (ground arith) (ground arith)) run
  | inr p ↦ elim (Bool-cases (ltb n (2 ^ 16))) [
    | inl q ↦
        rw (p, q, after_head_short f 126 refl)
          (Run-size f 2 n _ xs (length-le_bytes 2 (swap16 (n % 2 ^ 16)))
            (ground (arith, of_be_bytes-htons (n % 2 ^ 16))) run)
    | inr q ↦
        rw (p, q, after_head_long f 127 refl)
          (Run-size f 8 n _ xs (length-le_bytes 8 (swap64 n)) (of_be_bytes-htonll n h) run)
  ]
]

-- A payload on the wire.
unfoldable pub wire_payload : View → List ℕ
wire_payload v = if v.is_masked then xor_bytes 0 v.mask v.payload else v.payload

-- What a receiver makes of a frame: a key is sent with a masked one only.
abbrev pub received : View → View
received v = record v { mask = if v.is_masked then v.mask else no_mask }

length-wire_payload : (v : View) → length (wire_payload v) ≡ length v.payload
unfolding wire_payload
length-wire_payload v = ground (arith, length-xor_bytes 0 v.mask v.payload)

filled_back :
    (v : View)
    → IsSendable v
    → filled
        (record (announced v) { mask = if v.is_masked then v.mask else no_mask })
        (wire_payload v)
      ≡ received v
unfolding filled wire_payload
filled_back v h = ap (λ t. record (received v) { payload = t }) (plain v.is_masked)
  where
    plain :
        (m : Bool)
        → (if m
            then xor_bytes 0
                (if m then v.mask else no_mask)
                (if m then xor_bytes 0 v.mask v.payload else v.payload)
            else (if m then xor_bytes 0 v.mask v.payload else v.payload))
          ≡ v.payload
    plain true = xor_bytes_twice 0 v.mask v.payload h.key h.octets
    plain false = refl

pub size_code-lt : (n : ℕ) → (size_code n).0 < 128
unfolding size_code
size_code-lt n = ground arith

idle_stops : advance idle [] ≡ none
unfolding advance
idle_stops = refl

payload_stops : (f : View) (n : ℕ) → 0 < n → advance (need_payload f n) [] ≡ none
unfolding advance
payload_stops f n h = ground arith

Run-head :
    (v : View) (n : ℕ) (xs : List ℕ)
    → v.opcode < 16
    → n < 128
    → advance idle
        (first_byte v.is_fin v.rsv1 v.rsv2 v.rsv3 v.opcode ∷ or_flag v.is_masked 128 n ∷ xs)
      ≡ some (after_head (announced v) n, xs, none)
Run-head v n xs h k =
    advance_idle (first_byte v.is_fin v.rsv1 v.rsv2 v.rsv3 v.opcode) (or_flag v.is_masked 128 n) xs
    ∙ rw (opened_back v n h k, (second_fields v.is_masked n k).1)

Run-payload :
    (v g : View)
    → filled g (wire_payload v) ≡ received v
    → Run (need_payload g (length v.payload)) (wire_payload v) (received v ∷ []) idle []
Run-payload v g e =
    emit
      (advance_payload g n xs (omega (arith, len))
        ∙ rw (take_all n xs len, drop-past n xs (omega (arith, len)), e))
      (wait idle_stops)
  where
    n : ℕ
    n = length v.payload

    xs : List ℕ
    xs = wire_payload v

    len : length (wire_payload v) ≡ length v.payload
    len = length-wire_payload v

-- A stream that holds the header and the payload of one frame, masked by its key if it is to be,
-- is that frame and no more.
pub Run-frame :
    (v : View)
    → IsSendable v
    → Run idle (header_bytes v (length v.payload) ++ wire_payload v) (received v ∷ []) idle []
unfolding header_bytes
Run-frame v h = move (Run-head v code _ h.opcode (size_code-lt n)) (
    rw append_assoc (
      Run-code (announced v) n _ h.fits (
        Run-key v.is_masked v.mask (announced v) n (wire_payload v) refl
          (Run-payload v _ (filled_back v h)))))
  where
    n : ℕ
    n = length v.payload

    code : ℕ
    code = (size_code (length v.payload)).0

-- A stream that holds only the header of a masked frame with a payload completes no frame.
pub Run-header :
    (v : View)
    → IsSendable v
    → v.is_masked ≡ true
    → 0 < length v.payload
    → Run idle
        (header_bytes v (length v.payload))
        []
        (need_payload (record (announced v) { mask = v.mask }) (length v.payload))
        []
unfolding header_bytes
Run-header v h m p = move (Run-head v code _ h.opcode (size_code-lt n)) (
    Run-code (announced v) n _ h.fits (
      subst
        (λ xs.
          Run (need_key (announced v) n) xs []
            (need_payload (record (announced v) { mask = v.mask }) n) [])
        (append-nil (if v.is_masked then mask_bytes v.mask else []))
        (Run-key v.is_masked v.mask (announced v) n [] refl (keyed_stops v.is_masked m))))
  where
    n : ℕ
    n = length v.payload

    code : ℕ
    code = (size_code (length v.payload)).0

    keyed_stops :
        (b : Bool)
        → b ≡ true
        → Run
            (need_payload
              (record (announced v) { mask = if b then v.mask else no_mask })
              (length v.payload))
            []
            []
            (need_payload (record (announced v) { mask = v.mask }) (length v.payload))
            []
    keyed_stops true e =
        wait (payload_stops (record (announced v) { mask = v.mask }) (length v.payload) p)
    keyed_stops false e = cc
