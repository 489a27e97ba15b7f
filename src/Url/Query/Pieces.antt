-- ===== src/Url/Query/Pieces.antt =====
-- `ParseQueryParams` on an escaped key or value, in front of a mark or at the end.
use cxx_library.Prelude.{
  ℕ, ◌+◌, ◌-◌, ◌<◌, ◌≡◌, refl, sym, ap, ◌∙◌, inl, inr, Bool, true, false, ◌||◌, Option, some, List,
  [], ◌∷◌, ◌++◌, map, append-nil, ◌==◌, length, length-append, All, arith, if_true, lt→ltb,
  length-map, Bool-cases, Bool-cases,
}
use cxx_library.Prelude.Options.{◌>>=◌}
use cxx_library.HttpLike.State.{Headers, add_header}
use cxx_library.Url.RoundTrip.{IsAscii, encode}
use cxx_library.Url.Query.{
  Query, unescape_text, text_at, add_empty, ends_key, ends_value, text_size, store_key, store_value,
  query_char, query_chars,
}
use cxx_library.Url.Query.Lower.{
  lower_char, encode-IsText, encode-IsAscii, encode_some, unescape_text-low, unescape_text-encode,
}
use cxx_library.Url.Query.Steps.{
  IsText, at, text-piece, chars-cons, chars-text, key-end, value-end, value-goes-on,
}

store-encode :
    (v : List ℕ) (hs : Headers) (k : List ℕ) (off : ℕ)
    → All IsAscii v
    → 0 < length k
    → store_value (encode v) (at hs false k off) ≡ some (add_header k v hs)
unfolding store_value add_empty encode
store-encode [] hs k off h some_k = ap some (if_true _ _ (lt→ltb 0 (length k) some_k))
store-encode (c ∷ v) hs k off h some_k =
    let some_text : 0 < length (encode (c ∷ v)) = encode_some (c ∷ v) (omega arith) in
    if_true _ _ (lt→ltb 0 (length (encode (c ∷ v))) some_text)
    ∙ ap (λ (o : Option (List ℕ)). o >>= λ value. some (add_header k value hs))
        (unescape_text-encode (c ∷ v) h)

-- the last char of a text
split_last :
    (w : List ℕ)
    → All IsText w
    → 0 < length w
    → (init : List ℕ) × (c : ℕ) × (w ≡ init ++ (c ∷ [])) × All IsText init × IsText c
split_last [] h some_w = absurd (omega arith)
split_last (c ∷ []) h some_w = ([], c, refl, tt, h.0)
split_last (c ∷ d ∷ w) h some_w =
    let (init, e, same, clear, end_clear) = split_last (d ∷ w) h.1 (omega arith) in
    (c ∷ init, e, ap (λ t. c ∷ t) same, (h.0, clear), end_clear)

size-ended : (i off : ℕ) (last : Bool) → text_size true last i off ≡ i - off
unfolding text_size
size-ended i off true = omega arith
size-ended i off false = omega arith

size-last : (i off : ℕ) → text_size false true i off ≡ i + 1 - off
unfolding text_size
size-last i off = refl

stored-last :
    (i c : ℕ) (key : List ℕ) (hs : Headers) (k : List ℕ) (off : ℕ)
    → store_key true i c key (at hs true k off) ≡ at (add_empty key hs) true key (i + 1)
unfolding store_key
stored-last i c key hs k off = elim (Bool-cases (c == b'=')) [
  | inl p ↦ rw p refl
  | inr p ↦ rw p refl
]

add_empty-some :
    (key : List ℕ) (hs : Headers)
    → 0 < length key
    → add_empty (map lower_char key) hs ≡ add_header (map lower_char key) [] hs
unfolding add_empty
add_empty-some key hs h =
    let some_low : 0 < length (map lower_char key) = omega (arith, length-map key lower_char) in
    if_true _ _ (lt→ltb 0 (length (map lower_char key)) some_low)

module _ (to_lower : List ℕ → List ℕ)
    (lowers : (xs : List ℕ) → All IsAscii xs → to_lower xs ≡ map lower_char xs)
    (content pre : List ℕ) (off : ℕ) (at_pre : off ≡ length pre) where
  low-key :
      (key : List ℕ)
      → All IsAscii key
      → unescape_text (to_lower (encode key)) ≡ some (map lower_char key)
  low-key key h =
      ap unescape_text (lowers (encode key) (encode-IsAscii key h)) ∙ unescape_text-low key h

  -- a key up to the mark `c` behind it
  key-mark :
      (last : Bool) (c : ℕ) (key rest : List ℕ) (hs : Headers) (k : List ℕ) (i : ℕ)
      → content ≡ pre ++ (encode key ++ rest)
      → All IsAscii key
      → ends_key c ≡ true
      → i ≡ off + length (encode key)
      → query_char to_lower content last i c (at hs true k off)
        ≡ some (store_key last i c (map lower_char key) (at hs true k off))
  key-mark last c key rest hs k i e h ends at_i =
      let size : text_size (ends_key c) last i off ≡ length (encode key) =
        ap (λ b. text_size b last i off) ends ∙ size-ended i off last ∙ omega arith in
      key-end to_lower content last i c hs k off (encode key) (map lower_char key)
        (ap (λ b. b || last) ends) (text-piece content pre (encode key) rest off _ e at_pre size)
        (low-key key h)

  -- a text up to its last char, which the query ends with
  text-last :
      (w : List ℕ) (init : List ℕ) (c : ℕ) (b : Bool) (hs : Headers) (k : List ℕ) (i : ℕ)
      → w ≡ init ++ (c ∷ [])
      → All IsText init
      → i ≡ off + length init
      → query_chars to_lower content off w (at hs b k off)
        ≡ query_char to_lower content true i c (at hs b k off)
  unfolding query_chars
  text-last w init c b hs k i e h at_i =
      ap (λ t. query_chars to_lower content off t (at hs b k off)) e
      ∙ chars-text to_lower content off init (c ∷ []) hs b k off i h (omega arith) at_i

  last-size :
      (w init : List ℕ) (c : ℕ) (ends : Bool) (i : ℕ)
      → w ≡ init ++ (c ∷ [])
      → ends ≡ false
      → i ≡ off + length init
      → text_size ends true i off ≡ length w
  last-size w init c ends i e clear at_i =
      let size : length w ≡ length init + 1 = ap length e ∙ length-append init (c ∷ []) in
      ap (λ b. text_size b true i off) clear ∙ size-last i off ∙ omega arith

  last-text :
      (w init : List ℕ) (c : ℕ) (ends : Bool) (i : ℕ)
      → content ≡ pre ++ w
      → w ≡ init ++ (c ∷ [])
      → ends ≡ false
      → i ≡ off + length init
      → text_at off (text_size ends true i off) content ≡ w
  last-text w init c ends i e same clear at_i =
      text-piece content pre w [] off _ (e ∙ ap (λ t. pre ++ t) (sym (append-nil w))) at_pre
        (last-size w init c ends i same clear at_i)

  pub key-last :
      (key : List ℕ) (hs : Headers) (k : List ℕ)
      → content ≡ pre ++ encode key
      → All IsAscii key
      → 0 < length key
      → (query_chars to_lower content off (encode key) (at hs true k off) >>= λ q. some q.params)
        ≡ some (add_header (map lower_char key) [] hs)
  key-last key hs k e h some_key =
      let w = encode key in
      let (init, c, same, clear, end_clear) =
        split_last w (encode-IsText key h) (encode_some key some_key) in
      let text = last-text w init c (ends_key c) (off + length init) e same end_clear refl in
      ap (λ (o : Option Query). o >>= λ q. some q.params)
        (text-last w init c true hs k (off + length init) same clear refl
          ∙ key-end to_lower content true (off + length init) c hs k off w (map lower_char key)
              (ap (λ b. b || true) end_clear) text (low-key key h)
          ∙ ap some (stored-last (off + length init) c (map lower_char key) hs k off))
      ∙ ap some (add_empty-some key hs some_key)

  pub value-last :
      (value : List ℕ) (hs : Headers) (k : List ℕ)
      → content ≡ pre ++ encode value
      → All IsAscii value
      → 0 < length value
      → 0 < length k
      → (query_chars to_lower content off (encode value) (at hs false k off) >>= λ q. some q.params)
        ≡ some (add_header k value hs)
  value-last value hs k e h some_value some_k =
      let w = encode value in
      let (init, c, same, clear, end_clear) =
        split_last w (encode-IsText value h) (encode_some value some_value) in
      let goes_on = value-goes-on c end_clear in
      let text = last-text w init c (ends_value c) (off + length init) e same goes_on refl in
      ap (λ (o : Option Query). o >>= λ q. some q.params)
        (text-last w init c false hs k (off + length init) same clear refl
          ∙ value-end to_lower content true (off + length init) c hs (add_header k value hs) k off w
              (ap (λ b. b || true) goes_on) text (store-encode value hs k off h some_k))

  -- a key in front of an ampersand
  pub key-and :
      (key rest : List ℕ) (hs : Headers) (k : List ℕ) (i : ℕ)
      → content ≡ pre ++ (encode key ++ (b'&' ∷ rest))
      → All IsAscii key
      → 0 < length key
      → 0 < length rest
      → i ≡ off + length (encode key)
      → query_chars to_lower content off (encode key ++ (b'&' ∷ rest)) (at hs true k off)
        ≡ query_chars to_lower content
            (i + 1)
            rest
            (at (add_header (map lower_char key) [] hs) true (map lower_char key) (i + 1))
  unfolding ends_key store_key
  key-and key rest hs k i e h some_key some_rest at_i =
      let low = map lower_char key in
      chars-text to_lower content off (encode key) (b'&' ∷ rest) hs true k off i
        (encode-IsText key h) (omega arith) at_i
      ∙ chars-cons to_lower content i b'&' rest (at hs true k off) some_rest refl
      ∙ ap (λ o. o >>= query_chars to_lower content (i + 1) rest)
          (key-mark false b'&' key (b'&' ∷ rest) hs k i e h refl at_i)
      ∙ ap (λ v. query_chars to_lower content (i + 1) rest (at v true low (i + 1)))
          (add_empty-some key hs some_key)

  -- a key in front of an equals sign
  pub key-equals :
      (key rest : List ℕ) (hs : Headers) (k : List ℕ) (i : ℕ)
      → content ≡ pre ++ (encode key ++ (b'=' ∷ rest))
      → All IsAscii key
      → 0 < length rest
      → i ≡ off + length (encode key)
      → query_chars to_lower content off (encode key ++ (b'=' ∷ rest)) (at hs true k off)
        ≡ query_chars to_lower content (i + 1) rest (at hs false (map lower_char key) (i + 1))
  unfolding ends_key store_key
  key-equals key rest hs k i e h some_rest at_i =
      chars-text to_lower content off (encode key) (b'=' ∷ rest) hs true k off i
        (encode-IsText key h) (omega arith) at_i
      ∙ chars-cons to_lower content i b'=' rest (at hs true k off) some_rest refl
      ∙ ap (λ o. o >>= query_chars to_lower content (i + 1) rest)
          (key-mark false b'=' key (b'=' ∷ rest) hs k i e h refl at_i)

  -- a key and an equals sign at the end
  pub key-equals-last :
      (key : List ℕ) (hs : Headers) (k : List ℕ)
      → content ≡ pre ++ (encode key ++ (b'=' ∷ []))
      → All IsAscii key
      → 0 < length key
      → (query_chars to_lower content off (encode key ++ (b'=' ∷ [])) (at hs true k off) >>= λ q.
          some q.params)
        ≡ some (add_header (map lower_char key) [] hs)
  unfolding ends_key query_chars
  key-equals-last key hs k e h some_key =
      let i = off + length (encode key) in
      ap (λ (o : Option Query). o >>= λ q. some q.params)
        (chars-text to_lower content off (encode key) (b'=' ∷ []) hs true k off i
            (encode-IsText key h) (omega arith) refl
          ∙ key-mark true b'=' key (b'=' ∷ []) hs k i e h refl refl
          ∙ ap some (stored-last i b'=' (map lower_char key) hs k off))
      ∙ ap some (add_empty-some key hs some_key)

  -- a value in front of an ampersand
  pub value-and :
      (value rest : List ℕ) (hs : Headers) (k : List ℕ) (i : ℕ)
      → content ≡ pre ++ (encode value ++ (b'&' ∷ rest))
      → All IsAscii value
      → 0 < length k
      → 0 < length rest
      → i ≡ off + length (encode value)
      → query_chars to_lower content off (encode value ++ (b'&' ∷ rest)) (at hs false k off)
        ≡ query_chars to_lower content (i + 1) rest (at (add_header k value hs) true k (i + 1))
  unfolding ends_value
  value-and value rest hs k i e h some_k some_rest at_i =
      let size : text_size true false i off ≡ length (encode value) =
        size-ended i off false ∙ omega arith in
      chars-text to_lower content off (encode value) (b'&' ∷ rest) hs false k off i
        (encode-IsText value h) (omega arith) at_i
      ∙ chars-cons to_lower content i b'&' rest (at hs false k off) some_rest refl
      ∙ ap (λ o. o >>= query_chars to_lower content (i + 1) rest)
          (value-end to_lower content false i b'&' hs (add_header k value hs) k off (encode value)
            refl (text-piece content pre (encode value) (b'&' ∷ rest) off _ e at_pre size)
            (store-encode value hs k off h some_k))
