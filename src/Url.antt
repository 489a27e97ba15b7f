-- ===== src/Url.antt =====
-- http/urlescape.cpp: `URLUnescape` in place on a char array, and `URLEscape` into a blob.
-- A char is its byte value. `char` is signed on the target, so a table indexed by a char of 128
-- or more is read out of range: such a read is `none`.
pub mod Unescape
pub mod RoundTrip
pub mod Query
mod Tests
use cxx_library.Prelude.{
  ℕ, zero, suc, ◌+◌, ◌-◌, ◌*◌, ◌/◌, ◌%◌, Bool, true, false, ◌||◌, ◌&&◌, Option, none, some, List,
  [], ◌∷◌, bit_and, ltb, leb, ◌==◌, if◌then◌else◌, get_or, set, not, length,
}
use cxx_library.Prelude.Options.{◌>>=◌}
use cxx_library.Blob.{BlobOps}

-- the entries of `Hex` that are true
pub is_hex : ℕ → Bool
is_hex c = (leb 48 c && leb c 57) || (leb 65 c && leb c 70) || (leb 97 c && leb c 102)

-- the entries of `ShouldEscape` that are false, below 128
unfoldable pub is_plain : ℕ → Bool
is_plain c =
    (leb 32 c && leb c 33)
    || c == 36
    || c == 39
    || c == 42
    || (leb 45 c && leb c 57)
    || c == 59
    || (leb 64 c && leb c 90)
    || (leb 94 c && leb c 122)
    || c == 126

-- a table of 256 entries at a signed char
pub table_at : (ℕ → Bool) → ℕ → Option Bool
table_at t c = if ltb c 128 then some (t c) else none

-- what `TO_CHAR_IMPL` adds, as an unsigned char
pub nibble : ℕ → ℕ
nibble d = (if leb b'A' d then bit_and d 0xdf + 256 - b'A' + 10 else d + 256 - b'0') % 256

pub to_char : ℕ → ℕ → ℕ
unfolding nibble
to_char a b = ((0 * 16 + nibble a) % 256 * 16 + nibble b) % 256

-- `Hex[a] && Hex[b]`: the second read is made only after a true one.
pub hex_pair : ℕ → ℕ → Option Bool
unfolding table_at is_hex
hex_pair a b = elim (table_at is_hex a) [
  | none ↦ none
  | some false ↦ some false
  | some true ↦ table_at is_hex b
]

-- One round of the loop at index `i`: the char to write, and the next index.
pub unescape_round : ℕ → List ℕ → ℕ → Option (ℕ × ℕ)
unfolding hex_pair to_char
unescape_round size chars i =
    let c = get_or chars i 0 in
    if c == b'%'
    then (if leb size (i + 2) then some (b'%', i + 1) else do
      hex ← hex_pair (get_or chars (i + 1) 0) (get_or chars (i + 2) 0)
      some (
          if hex
          then (to_char (get_or chars (i + 1) 0) (get_or chars (i + 2) 0), i + 3)
          else (b'%', i + 1)))
    else some (if c == b'+' then b' ' else c, i + 1)

-- The loop over the array, on fuel; each round takes an index at least, so that `size` rounds are
-- enough. It returns `offset` and the array.
pub unescape_loop : ℕ → ℕ → ℕ → ℕ → List ℕ → Option (ℕ × List ℕ)
unescape_loop zero size i offset chars = some (offset, chars)
unescape_loop (suc fuel) size i offset chars =
    let rest = unescape_round size chars i >>= λ (v, i').
    unescape_loop fuel size i' (offset + 1) (set chars offset v) in
    if ltb i size then rest else some (offset, chars)

pub url_unescape : ℕ → List ℕ → Option (ℕ × List ℕ)
unfolding unescape_loop unescape_round
url_unescape size chars = unescape_loop size size 0 0 chars

-- `CharTable`
unfoldable pub hex_digit : ℕ → ℕ
hex_digit n = if ltb n 10 then b'0' + n else b'A' + (n - 10)

module _ (o : BlobOps) where
  open o use {Blob, empty, reserve, append}

  -- the body of the loop of `URLEscape`
  pub escape_char : ℕ → Blob → Option Blob
  unfolding table_at
  escape_char c out = if c == b' ' then some (append (b'+' ∷ []) out) else do
    plain ← table_at is_plain c
    some (
        if not plain
        then append (hex_digit (c % 16) ∷ [])
            (append (hex_digit (c / 16) ∷ []) (append (b'%' ∷ []) out))
        else append (c ∷ []) out)

  pub escape_chars : List ℕ → Blob → Option Blob
  escape_chars [] out = some out
  escape_chars (c ∷ cs) out = do out' ← escape_char c out; escape_chars cs out'

  -- `size` is the length of the list.
  pub url_escape : List ℕ → Option Blob
  unfolding escape_chars
  url_escape cs = escape_chars cs (reserve (length cs) empty)
