-- ===== src/WebSocket/Stages/Size.antt =====
-- The second part of `ProcessMessage`: the size of a long payload, and what follows it.
use cxx_library.Prelude.{
  ℕ, ◌+◌, ◌≤◌, ◌<◌, ◌≡◌, ◌⊎◌, refl, sym, ap, ◌∙◌, inl, inr, none, some, List, [], ◌∷◌, arith, ltb,
  length, take, drop, length-drop, drop-drop, Bool-cases, AllBytes,
}
use cxx_library.Blob.{BlobOps}
use cxx_library.HostOrder.{of_be_bytes, ntohs-of_le_bytes, ntohll-of_le_bytes}
use cxx_library.WebSocket.Frame.{Frame}
use cxx_library.WebSocket.Parser.{
  ParserState, Flow, returned, next, payload_size, mask_key, bufferize, skip, read_length,
  read_size, ◌>>=◌,
}
use cxx_library.WebSocket.Stream.{View, Progress, idle, need_size, need_key, advance, wait}
use cxx_library.WebSocket.Stages.Buffer.{At, bufferize_lem, skip_lem}
use cxx_library.WebSocket.Stages.Fill.{view}
use cxx_library.WebSocket.Stages.Result.{state, Result, waited, prepend, by_flow}
use cxx_library.WebSocket.Stages.Key.{from_key, from_key_lem}

-- `ntohs` and `ntohll` of the bytes in memory read the number that they mean in network order.
read_length_short :
    (xs : List ℕ)
    → AllBytes xs
    → 2 ≤ length xs
    → read_length 2 xs ≡ some (of_be_bytes 0 (take 2 xs))
unfolding read_length
read_length_short [] h l = absurd (omega arith)
read_length_short (a ∷ []) h l = absurd (omega arith)
read_length_short (a ∷ b ∷ xs) h l = ap some (ntohs-of_le_bytes a b (h.0, (h.1.0, tt)))

read_length_long :
    (xs : List ℕ)
    → AllBytes xs
    → 8 ≤ length xs
    → read_length 8 xs ≡ some (of_be_bytes 0 (take 8 xs))
unfolding read_length
read_length_long (a ∷ b ∷ c ∷ d ∷ e ∷ f ∷ g ∷ i ∷ xs) h l =
    ap some (ntohll-of_le_bytes a b c d e f g i (omega arith))
read_length_long xs h l = absurd (omega arith)

read_length_lem :
    (n : ℕ) (xs : List ℕ)
    → (n ≡ 2) ⊎ (n ≡ 8)
    → AllBytes xs
    → n ≤ length xs
    → read_length n xs ≡ some (of_be_bytes 0 (take n xs))
read_length_lem n xs (inl e) h l = rw e (read_length_short xs h (omega arith))
read_length_lem n xs (inr e) h l = rw e (read_length_long xs h (omega arith))

pub advance_size :
    (f : View) (n : ℕ) (xs : List ℕ)
    → n ≤ length xs
    → advance (need_size f n) xs ≡ some (need_key f (of_be_bytes 0 (take n xs)), drop n xs, none)
unfolding advance
advance_size f n xs h = ground arith

advance_size_wait :
    (f : View) (n : ℕ) (xs : List ℕ) → length xs < n → advance (need_size f n) xs ≡ none
unfolding advance
advance_size_wait f n xs h = ground arith

need_size≢idle : {f : View} {n : ℕ} → need_size f n ≡ idle → ⊥
need_size≢idle h = cc

module _ (o : BlobOps) where
  open o use {Blob, bytes}

  -- the last three parts
  abbrev pub from_size : List ℕ → ParserState Blob → ℕ → Flow (ParserState Blob)
  from_size msg s off = read_size o msg s off >>= from_key o msg

  module _ (msg : List ℕ) (off k n : ℕ) (b : Blob) (f : Frame Blob) (fr : List (Frame Blob))
      (at : At o msg off b k) (e : bytes f.payload ≡ []) (two : (n ≡ 2) ⊎ (n ≡ 8))
      (octets : AllBytes (drop off msg)) where
    abbrev pub st : ParserState Blob
    st = state o b k (some f) n 0 fr payload_size

    abbrev long : ℕ
    long = of_be_bytes 0 (take n (drop off msg))

    wait_step :
        length (drop off msg) < n → read_size o msg st off ≡ returned (bufferize o msg off st)
    unfolding read_size
    wait_step h = ground (arith, length-drop off msg)

    size_step :
        n ≤ length (drop off msg)
        → read_size o msg st off
          ≡ next
              (record (skip o n (state o b k (some f) n long fr mask_key)) { size_len = 0 })
              (off + n)
    unfolding read_size
    size_step h = ground (arith, length-drop off msg, read_length_lem n (drop off msg) two octets h)

    from_size_wait :
        length (drop off msg) < n
        → Result o (need_size (view o f) n) (drop off msg) fr (from_size msg st off)
    from_size_wait h =
        let (b', eq, fit, rest) = bufferize_lem o msg off st at in
        (
          record st { buf = b' },
          ap (λ r. r >>= from_key o msg) (wait_step h) ∙ ap returned eq,
          fit,
          (0, rest),
          waited (need_size (view o f) n) (f, refl, refl, e, two)
              (rw rest (wait (advance_size_wait (view o f) n (drop off msg) h))) refl,
        )

    from_size_read :
        n ≤ length (drop off msg)
        → Result o (need_size (view o f) n) (drop off msg) fr (from_size msg st off)
    from_size_read h =
        let (k', eq, at') =
          skip_lem o n msg off (state o b k (some f) n long fr mask_key) at
            (omega (arith, at.0, length-drop off msg)) in
        by_flow o (need_size (view o f) n) (drop off msg) fr
          (ap (λ r. r >>= from_key o msg)
            (size_step h
              ∙ ap (λ (t : ParserState Blob). next (record t { size_len = 0 }) (off + n)) eq))
          (prepend o (need_size (view o f) n) (need_key (view o f) long) (drop off msg)
            (drop (off + n) msg) fr _ n (advance_size (view o f) n (drop off msg) h ∙ ap some moved)
            (sym (drop-drop off n msg)) (λ i. absurd (need_size≢idle i))
            (from_key_lem o msg (off + n) k' long b f fr at' e))
      where
        moved :
            ◌≡◌ {A = Progress}
              (need_key (view o f) long, drop n (drop off msg), none)
              (need_key (view o f) long, drop (off + n) msg, none)
        moved = rw drop-drop

    pub from_size_lem : Result o (need_size (view o f) n) (drop off msg) fr (from_size msg st off)
    from_size_lem = elim (Bool-cases (ltb (length (drop off msg)) n)) [
      | inl h ↦ from_size_wait (ground arith)
      | inr h ↦ from_size_read (ground arith)
    ]
