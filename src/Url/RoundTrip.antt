-- ===== src/Url/RoundTrip.antt =====
-- `URLEscape` of http/urlescape.cpp, and what its output decodes to.
use cxx_library.Prelude.{
  ℕ, ◌/◌, ◌%◌, ◌≤◌, ◌<◌, ◌≡◌, refl, sym, ap, subst, ◌∙◌, inl, inr, Bool, true, false, not, ◌&&◌,
  Option, none, some, List, [], ◌∷◌, ◌++◌, arith, ◌==◌, if◌then◌else◌, append_assoc, Bool-cases,
  holds_below, below-holds, All, length, append-nil, lt→ltb,
}
use cxx_library.Prelude.Options.{◌>>=◌}
use cxx_library.Blob.{BlobOps}
use cxx_library.Url.{
  hex_pair, to_char, hex_digit, is_plain, escape_char, escape_chars, url_escape, url_unescape,
}
use cxx_library.Url.Unescape.{decode, decode_plain, decode_hex, Writes, url_unescape-decode}

abbrev pub IsAscii : ℕ → Type 0
IsAscii c = c < 128

-- What a char is escaped to.
unfoldable pub encode_char : ℕ → List ℕ
encode_char c =
    if c == b' '
    then b'+' ∷ []
    else if is_plain c
    then c ∷ []
    else b'%' ∷ hex_digit (c / 16) ∷ hex_digit (c % 16) ∷ []

unfoldable pub encode : List ℕ → List ℕ
encode [] = []
encode (c ∷ cs) = encode_char c ++ encode cs

unfoldable pub is_some_true : Option Bool → Bool
is_some_true none = false
is_some_true (some b) = b

-- For every char below 128: one that is neither plain nor a space comes back from its two digits,
-- and a plain one is no percent or plus sign.
escapes_back : ℕ → Bool
escapes_back c =
    if is_plain c
    then not (c == b'%') && not (c == b'+')
    else (is_some_true (hex_pair (hex_digit (c / 16)) (hex_digit (c % 16)))
        && (to_char (hex_digit (c / 16)) (hex_digit (c % 16)) == c))

escapes_table : holds_below 128 escapes_back ≡ true
unfolding holds_below escapes_back is_plain is_some_true hex_pair to_char hex_digit
escapes_table = refl

escapes : (c : ℕ) → IsAscii c → escapes_back c ≡ true
escapes c h = below-holds 128 escapes_back c escapes_table h

plain_char : (c : ℕ) → IsAscii c → is_plain c ≡ true → ((c == b'%') ≡ false) × ((c == b'+') ≡ false)
unfolding escapes_back
plain_char c h p = ground (arith, escapes c h)

coded_char :
    (c : ℕ)
    → IsAscii c
    → is_plain c ≡ false
    → (hex_pair (hex_digit (c / 16)) (hex_digit (c % 16)) ≡ some true)
      × (to_char (hex_digit (c / 16)) (hex_digit (c % 16)) ≡ c)
unfolding escapes_back is_some_true
coded_char c h p = ground (arith, escapes c h)

pub decode_cons :
    (c : ℕ) (r : List ℕ)
    → (c == b'%') ≡ false
    → decode (c ∷ r) ≡ (decode r >>= λ t. some ((if c == b'+' then b' ' else c) ∷ t))
decode_cons c [] h = unfold decode in refl
decode_cons c (a ∷ []) h = unfold decode in refl
decode_cons c (a ∷ b ∷ cs) h = decode_plain c a b cs h

pub decode-encode_char :
    (c : ℕ) (r : List ℕ)
    → IsAscii c
    → decode (encode_char c ++ r) ≡ (decode r >>= λ t. some (c ∷ t))
unfolding encode_char
decode-encode_char c r h = elim (Bool-cases (c == b' ')) [
  | inl p ↦
      rw (p, decode_cons b'+' r refl) (ap (λ k. decode r >>= λ t. some (k ∷ t)) (ground arith))
  | inr p ↦ elim (Bool-cases (is_plain c)) [
    | inl q ↦ rw (p, q, decode_cons c r (plain_char c h q).0, (plain_char c h q).1)
    | inr q ↦ rw (
      p,
      q,
      decode_hex b'%' (hex_digit (c / 16)) (hex_digit (c % 16)) r refl (coded_char c h q).0,
      (coded_char c h q).1,
    )
  ]
]

pub decode-encode : (cs : List ℕ) → All IsAscii cs → decode (encode cs) ≡ some cs
unfolding encode
decode-encode [] h = unfold decode in refl
decode-encode (c ∷ cs) h = rw (decode-encode_char c (encode cs) h.0, decode-encode cs h.1)

module _ (o : BlobOps) where
  open o use {Blob, bytes, bytes-append, bytes-reserve, bytes-empty}

  escape_char_ascii :
      (c : ℕ) (out : Blob)
      → IsAscii c
      → (out' : Blob) × (escape_char o c out ≡ some out')
        × (bytes out' ≡ bytes out ++ encode_char c)
  unfolding escape_char encode_char
  escape_char_ascii c out h = elim (Bool-cases (c == b' ')) [
    | inl p ↦ rw p (_, refl, bytes-append _ out)
    | inr p ↦
        rw (p, lt→ltb c 128 h)
          (elim (Bool-cases (is_plain c)) [
            | inl q ↦ rw q (_, refl, bytes-append _ out)
            | inr q ↦
                rw q (_, refl, rw (bytes-append, bytes-append, bytes-append) (simp append_assoc))
          ])
  ]

  pub escape_chars_ascii :
      (cs : List ℕ) (out : Blob)
      → All IsAscii cs
      → (out' : Blob) × (escape_chars o cs out ≡ some out') × (bytes out' ≡ bytes out ++ encode cs)
  unfolding escape_chars encode
  escape_chars_ascii [] out h = (out, refl, sym (append-nil (bytes out)))
  escape_chars_ascii (c ∷ cs) out h =
      let (mid, e, b) = escape_char_ascii c out h.0 in
      let (out', e', b') = escape_chars_ascii cs mid h.1 in
      (out', rw e e', b' ∙ rw b (append_assoc (bytes out) (encode_char c) (encode cs)))

  -- `URLEscape` of chars below 128 reads its tables in range, and `URLUnescape`, given its output
  -- with anything behind it, writes the same chars back at the front, returns how many they are,
  -- and leaves what is behind alone.
  pub url_unescape-url_escape :
      (cs tail : List ℕ)
      → All IsAscii cs
      → (out : Blob) × (url_escape o cs ≡ some out)
        × Writes
            (some cs)
            (url_unescape (length (bytes out)) (bytes out ++ tail))
            []
            tail
            (length (bytes out))
  unfolding url_escape
  url_unescape-url_escape cs tail h =
      let (out, e, b) = escape_chars_ascii cs _ h in
      let back : decode (bytes out) ≡ some cs =
        rw (b, bytes-reserve, bytes-empty) (decode-encode cs h) in
      (
        out,
        e,
        subst
            (λ r.
              Writes r (url_unescape (length (bytes out)) (bytes out ++ tail)) [] tail
                (length (bytes out)))
            back (url_unescape-decode (bytes out) tail),
      )

  char_fault : (c : ℕ) (out : Blob) → 128 ≤ c → escape_char o c out ≡ none
  unfolding escape_char
  char_fault c out p = ground arith

  chars_fault :
      (front back : List ℕ) (c : ℕ) (out : Blob)
      → All IsAscii front
      → 128 ≤ c
      → escape_chars o (front ++ (c ∷ back)) out ≡ none
  unfolding escape_chars
  chars_fault [] back c out h p = rw (char_fault c out p)
  chars_fault (a ∷ front) back c out h p =
      let (mid, e, b) = escape_char_ascii a out h.0 in rw e (chars_fault front back c mid h.1 p)

  -- `URLEscape` reads out of its table's range at the first char of 128 or more, whatever chars
  -- below 128 stand in front of it and whatever follows, where `char` is signed.
  pub url_escape_fault :
      (front back : List ℕ) (c : ℕ)
      → All IsAscii front
      → 128 ≤ c
      → url_escape o (front ++ (c ∷ back)) ≡ none
  unfolding url_escape
  url_escape_fault front back c h p = chars_fault front back c _ h p
