-- ===== src/Url/Query/Lower.antt =====
-- `URLEscape`'s output as `ParseQueryParams` reads it: with no char that ends a text, and in lower
-- case.
use cxx_library.Prelude.{
  ℕ, ◌+◌, ◌/◌, ◌%◌, ◌<◌, ◌≡◌, refl, sym, ap, subst, ◌∙◌, inl, inr, Bool, true, false, not, ◌&&◌,
  some, List, [], ◌∷◌, ◌++◌, map, append-nil, ltb, leb, ◌==◌, if◌then◌else◌, length, length-append,
  take, take-front, All, All-append, arith, holds_below, below-holds, Bool-cases,
}
use cxx_library.Prelude.Options.{◌>>=◌}
use cxx_library.Url.{is_plain, hex_digit, to_char, hex_pair, url_unescape}
use cxx_library.Url.Unescape.{decode, Writes, url_unescape-decode, decode_hex}
use cxx_library.Url.RoundTrip.{
  IsAscii, encode_char, encode, decode-encode, decode_cons, is_some_true,
}
use cxx_library.Url.Query.{unescape_text, ends_key}
use cxx_library.Url.Query.Steps.{IsText}

-- a char as the C locale's `tolower` gives it
unfoldable pub lower_char : ℕ → ℕ
lower_char c = if leb b'A' c && leb c b'Z' then c + 32 else c

is_clear : List ℕ → Bool
is_clear [] = true
is_clear (c ∷ cs) = not (ends_key c) && is_clear cs

clear-IsText : (cs : List ℕ) → is_clear cs ≡ true → All IsText cs
unfolding is_clear
clear-IsText [] h = tt
clear-IsText (c ∷ cs) h = (ground (arith, h), clear-IsText cs (ground (arith, h)))

clear_table : holds_below 128 (λ c. is_clear (encode_char c)) ≡ true
unfolding holds_below is_clear encode_char is_plain hex_digit ends_key
clear_table = refl

pub encode-IsText : (cs : List ℕ) → All IsAscii cs → All IsText (encode cs)
unfolding encode
encode-IsText [] h = tt
encode-IsText (c ∷ cs) h =
    All-append IsText (encode_char c) (encode cs)
      (clear-IsText (encode_char c)
        (below-holds 128 (λ d. is_clear (encode_char d)) c clear_table h.0))
      (encode-IsText cs h.1)

-- For every char below 128: one that is neither plain nor a space comes back in lower case from
-- its two digits in lower case, and a plain one in lower case is no percent or plus sign.
low_back : ℕ → Bool
low_back c =
    if is_plain c
    then not (lower_char c == b'%') && not (lower_char c == b'+')
    else (is_some_true
          (hex_pair (lower_char (hex_digit (c / 16))) (lower_char (hex_digit (c % 16))))
        && (to_char (lower_char (hex_digit (c / 16))) (lower_char (hex_digit (c % 16)))
            == lower_char c))

low_table : holds_below 128 low_back ≡ true
unfolding holds_below low_back lower_char is_plain is_some_true hex_pair to_char hex_digit
low_table = refl

low : (c : ℕ) → IsAscii c → low_back c ≡ true
low c h = below-holds 128 low_back c low_table h

low_plain :
    (c : ℕ)
    → IsAscii c
    → is_plain c ≡ true
    → ((lower_char c == b'%') ≡ false) × ((lower_char c == b'+') ≡ false)
unfolding low_back
low_plain c h p = ground (arith, low c h)

low_coded :
    (c : ℕ)
    → IsAscii c
    → is_plain c ≡ false
    → (hex_pair (lower_char (hex_digit (c / 16))) (lower_char (hex_digit (c % 16))) ≡ some true)
      × (to_char (lower_char (hex_digit (c / 16))) (lower_char (hex_digit (c % 16))) ≡ lower_char c)
unfolding low_back is_some_true
low_coded c h p = ground (arith, low c h)

space_low : (c : ℕ) → c ≡ b' ' → b' ' ≡ lower_char c
unfolding lower_char
space_low c e = ap lower_char (sym e)

decode-low_char :
    (c : ℕ) (r : List ℕ)
    → IsAscii c
    → decode (map lower_char (encode_char c) ++ r) ≡ (decode r >>= λ t. some (lower_char c ∷ t))
unfolding encode_char lower_char
decode-low_char c r h = elim (Bool-cases (c == b' ')) [
  | inl p ↦ rw p (
      decode_cons (lower_char b'+') r refl
      ∙ ap (λ k. decode r >>= λ t. some (k ∷ t)) (space_low c (ground arith)))
  | inr p ↦ elim (Bool-cases (is_plain c)) [
    | inl q ↦ rw (p, q, decode_cons (lower_char c) r (low_plain c h q).0, (low_plain c h q).1)
    | inr q ↦ rw (
      p,
      q,
      decode_hex b'%' (lower_char (hex_digit (c / 16))) (lower_char (hex_digit (c % 16))) r refl
          (low_coded c h q).0,
      (low_coded c h q).1,
    )
  ]
]

map_append : (f : ℕ → ℕ) (xs ys : List ℕ) → map f (xs ++ ys) ≡ map f xs ++ map f ys
map_append f [] ys = refl
map_append f (x ∷ xs) ys = ap (λ t. f x ∷ t) (map_append f xs ys)

decode-low :
    (cs : List ℕ) → All IsAscii cs → decode (map lower_char (encode cs)) ≡ some (map lower_char cs)
unfolding encode
decode-low [] h = unfold decode in refl
decode-low (c ∷ cs) h =
    ap decode (map_append lower_char (encode_char c) (encode cs))
    ∙ decode-low_char c (map lower_char (encode cs)) h.0
    ∙ ap (λ o. o >>= λ t. some (lower_char c ∷ t)) (decode-low cs h.1)

-- `URLUnescape` of a string gives what the decoder gives.
pub unescape_text-decode : (t r : List ℕ) → decode t ≡ some r → unescape_text t ≡ some r
unfolding unescape_text
unescape_text-decode t r e =
    let (junk, run, size) =
      subst (λ o. Writes o (url_unescape (length t) (t ++ [])) [] [] (length t)) e
        (url_unescape-decode t []) in
    ap (λ v. url_unescape (length t) v >>= λ w. some (take w.0 w.1)) (sym (append-nil t))
    ∙ ap (λ o. o >>= λ w. some (take w.0 w.1)) run
    ∙ ap some (take-front r (junk ++ []) (0 + length r) (omega arith))

pub unescape_text-encode : (v : List ℕ) → All IsAscii v → unescape_text (encode v) ≡ some v
unescape_text-encode v h = unescape_text-decode (encode v) v (decode-encode v h)

pub unescape_text-low :
    (v : List ℕ)
    → All IsAscii v
    → unescape_text (map lower_char (encode v)) ≡ some (map lower_char v)
unescape_text-low v h =
    unescape_text-decode (map lower_char (encode v)) (map lower_char v) (decode-low v h)

is_short : List ℕ → Bool
is_short [] = true
is_short (c ∷ cs) = ltb c 128 && is_short cs

short-IsAscii : (cs : List ℕ) → is_short cs ≡ true → All IsAscii cs
unfolding is_short
short-IsAscii [] h = tt
short-IsAscii (c ∷ cs) h = (ground (arith, h), short-IsAscii cs (ground (arith, h)))

short_table : holds_below 128 (λ c. is_short (encode_char c)) ≡ true
unfolding holds_below is_short encode_char is_plain hex_digit
short_table = refl

pub encode-IsAscii : (cs : List ℕ) → All IsAscii cs → All IsAscii (encode cs)
unfolding encode
encode-IsAscii [] h = tt
encode-IsAscii (c ∷ cs) h =
    All-append IsAscii (encode_char c) (encode cs)
      (short-IsAscii (encode_char c)
        (below-holds 128 (λ d. is_short (encode_char d)) c short_table h.0))
      (encode-IsAscii cs h.1)

char_some : (c : ℕ) → 0 < length (encode_char c)
unfolding encode_char
char_some c = elim (Bool-cases (c == b' ')) [
  | inl p ↦ rw p (omega arith)
  | inr p ↦ elim (Bool-cases (is_plain c)) [
    | inl q ↦ rw (p, q) (omega arith)
    | inr q ↦ rw (p, q) (omega arith)
  ]
]

pub encode_some : (cs : List ℕ) → 0 < length cs → 0 < length (encode cs)
unfolding encode
encode_some [] h = absurd (omega arith)
encode_some (c ∷ cs) h = omega (arith, char_some c, length-append (encode_char c) (encode cs))
