-- ===== src/WebSocket/Stream.antt =====
-- What a WebSocket stream means: a machine over the bytes that are not read yet, which consumes a
-- part of a frame as soon as all of it is there. The parser is proved to follow it.
use cxx_library.Prelude.{
  ℕ, ◌+◌, ◌%◌, ◌≡◌, Option, none, some, List, [], ◌∷◌, bit_and, bit_xor, ltb, ◌==◌, if◌then◌else◌,
  length, take, drop,
}
use cxx_library.HostOrder.{of_be_bytes}
use cxx_library.WebSocket.Frame.{Frame, no_mask, mask_at, MaskKey}
use cxx_library.WebSocket.Parser.{has_bit}

-- a frame with the bytes of its payload
abbrev pub View : Type 0
View = Frame (List ℕ)

-- What is awaited: a frame, `k` bytes of a payload's size, a mask key, or a payload of `n` bytes.
pub data Phase : Type 0 where
  idle : Phase
  need_size : View → ℕ → Phase
  need_key : View → ℕ → Phase
  need_payload : View → ℕ → Phase

-- the frame that two bytes begin
unfoldable pub opened : ℕ → ℕ → View
opened b0 b1 = record {
  is_fin = has_bit b0 128;
  rsv1 = has_bit b0 64;
  rsv2 = has_bit b0 32;
  rsv3 = has_bit b0 16;
  is_masked = has_bit b1 128;
  opcode = bit_and b0 15;
  mask = no_mask;
  payload = [];
}

unfoldable pub after_head : View → ℕ → Phase
after_head f n =
    if n == 127 then need_size f 8 else if n == 126 then need_size f 2 else need_key f n

-- each byte with the key's byte for its index, from index `i` on
unfoldable pub xor_bytes : ℕ → MaskKey → List ℕ → List ℕ
xor_bytes i key [] = []
xor_bytes i key (b ∷ bs) = bit_xor b (mask_at key i) ∷ xor_bytes (i + 1) key bs

unfoldable pub filled : View → List ℕ → View
unfolding xor_bytes
filled f xs = record f { payload = if f.is_masked then xor_bytes 0 f.mask xs else xs }

-- the first four bytes
unfoldable pub key_of : List ℕ → MaskKey
key_of (a ∷ b ∷ c ∷ d ∷ xs) = record { k0 = a; k1 = b; k2 = c; k3 = d }
key_of _ = no_mask

abbrev pub Progress : Type 0
Progress = Phase × List ℕ × Option View

-- the phase, the bytes left and the frame completed, if one is; `none` asks for more bytes
unfoldable pub advance : Phase → List ℕ → Option Progress
unfolding opened after_head
advance idle [] = none
advance idle (b0 ∷ []) = none
advance idle (b0 ∷ b1 ∷ xs) = some (after_head (opened b0 b1) (b1 % 128), xs, none)
advance (need_size f k) xs =
    if ltb (length xs) k
    then none
    else some (need_key f (of_be_bytes 0 (take k xs)), drop k xs, none)
advance (need_key f n) xs =
    if f.is_masked
    then (if ltb (length xs) 4
        then none
        else some (need_payload (record f { mask = key_of xs }) n, drop 4 xs, none))
    else some (need_payload f n, xs, none)
advance (need_payload f n) xs =
    if ltb (length xs) n then none else some (idle, drop n xs, some (filled f (take n xs)))

-- `Run p xs fs q ys`: from phase `p` the bytes `xs` complete the frames `fs`, in order, and then no
-- part is complete: phase `q` waits with the bytes `ys`.
pub data Run : Phase → List ℕ → List View → Phase → List ℕ → Type 0 where
  wait : {p : Phase} {xs : List ℕ} → advance p xs ≡ none → Run p xs [] p xs
  move :
      {p p' q : Phase} {xs xs' ys : List ℕ} {fs : List View}
      → advance p xs ≡ some (p', xs', none)
      → Run p' xs' fs q ys
      → Run p xs fs q ys
  emit :
      {p p' q : Phase} {xs xs' ys : List ℕ} {f : View} {fs : List View}
      → advance p xs ≡ some (p', xs', some f)
      → Run p' xs' fs q ys
      → Run p xs (f ∷ fs) q ys
