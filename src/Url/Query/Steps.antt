-- ===== src/Url/Query/Steps.antt =====
-- The loop of `ParseQueryParams` on the pieces of a query.
use cxx_library.Prelude.{
  ℕ, ◌+◌, ◌<◌, ◌≡◌, ap, ◌∙◌, Bool, true, false, ◌||◌, Option, some, List, [], ◌∷◌, ◌++◌, ◌==◌,
  length, length-append, take, drop, drop-middle, take-front, All, arith, if_true, if_false,
}
use cxx_library.Prelude.Options.{◌>>=◌}
use cxx_library.HttpLike.State.{Headers}
use cxx_library.Url.Query.{
  Query, unescape_text, text_at, ends_key, ends_value, text_size, store_key, store_value,
  value_char, key_char, query_char, query_chars,
}

-- a char inside of a key or a value
abbrev pub IsText : ℕ → Type 0
IsText c = ends_key c ≡ false

abbrev pub at : Headers → Bool → List ℕ → ℕ → Query
at ps b k off = record { params = ps; in_key = b; key = k; offset = off }

-- the text between the offset and the char that ends it
pub text-piece :
    (content pre w rest : List ℕ) (off n : ℕ)
    → content ≡ pre ++ (w ++ rest)
    → off ≡ length pre
    → n ≡ length w
    → text_at off n content ≡ w
unfolding text_at
text-piece content pre w rest off n e at_pre size =
    ap (λ t. take n (drop off t)) e
    ∙ ap (λ t. take n t) (drop-middle pre (w ++ rest) off at_pre)
    ∙ take-front w rest n size

pub value-goes-on : (c : ℕ) → IsText c → ends_value c ≡ false
unfolding ends_key ends_value
value-goes-on c h = ground (arith, h)

module _ (to_lower : List ℕ → List ℕ) (content : List ℕ) where
  pub chars-cons :
      (i c : ℕ) (rest : List ℕ) (q : Query)
      → 0 < length rest
      → (c == b'#') ≡ false
      → query_chars to_lower content i (c ∷ rest) q
        ≡ (query_char to_lower content false i c q >>= query_chars to_lower content (i + 1) rest)
  unfolding query_chars
  chars-cons i c [] q h clear = absurd (omega arith)
  chars-cons i c (d ∷ rest) q h clear =
      ap
        (λ (b : Bool). query_char to_lower content false i c q >>= λ r. elim b [
          | true ↦ some r
          | false ↦ query_chars to_lower content (i + 1) (d ∷ rest) r
        ])
        clear

  char-text :
      (i c : ℕ) (ps : Headers) (b : Bool) (k : List ℕ) (off : ℕ)
      → IsText c
      → query_char to_lower content false i c (at ps b k off) ≡ some (at ps b k off)
  unfolding query_char key_char value_char
  char-text i c ps true k off h =
      let goes_on : ends_key c || false ≡ false = ground (arith, h) in if_false _ _ goes_on
  char-text i c ps false k off h =
      let goes_on : ends_value c || false ≡ false = ground (arith, value-goes-on c h) in
      if_false _ _ goes_on

  text-no_hash : (c : ℕ) → IsText c → (c == b'#') ≡ false
  unfolding ends_key
  text-no_hash c h = ground (arith, h)

  pub chars-text :
      (i : ℕ) (w rest : List ℕ) (ps : Headers) (b : Bool) (k : List ℕ) (off j : ℕ)
      → All IsText w
      → 0 < length rest
      → j ≡ i + length w
      → query_chars to_lower content i (w ++ rest) (at ps b k off)
        ≡ query_chars to_lower content j rest (at ps b k off)
  chars-text i [] rest ps b k off j h some_rest e =
      let same : i ≡ j = omega arith in
      ap (λ n. query_chars to_lower content n rest (at ps b k off)) same
  chars-text i (c ∷ w) rest ps b k off j h some_rest e =
      let some_more : 0 < length (w ++ rest) = omega (arith, length-append w rest) in
      chars-cons i c (w ++ rest) (at ps b k off) some_more (text-no_hash c h.0)
      ∙ ap (λ o. o >>= query_chars to_lower content (i + 1) (w ++ rest))
          (char-text i c ps b k off h.0)
      ∙ chars-text (i + 1) w rest ps b k off j h.1 some_rest (omega arith)

  -- a key's end, at which its text is `w`
  pub key-end :
      (last : Bool) (i c : ℕ) (ps : Headers) (k : List ℕ) (off : ℕ) (w key : List ℕ)
      → (ends_key c || last) ≡ true
      → text_at off (text_size (ends_key c) last i off) content ≡ w
      → unescape_text (to_lower w) ≡ some key
      → query_char to_lower content last i c (at ps true k off)
        ≡ some (store_key last i c key (at ps true k off))
  unfolding query_char key_char
  key-end last i c ps k off w key ends text decoded =
      if_true _ _ ends
      ∙ ap (λ o. o >>= λ v. some (store_key last i c v (at ps true k off)))
          (ap (λ t. unescape_text (to_lower t)) text ∙ decoded)

  -- a value's end, at which its text is `w`
  pub value-end :
      (last : Bool) (i c : ℕ) (ps after : Headers) (k : List ℕ) (off : ℕ) (w : List ℕ)
      → (ends_value c || last) ≡ true
      → text_at off (text_size (ends_value c) last i off) content ≡ w
      → store_value w (at ps false k off) ≡ some after
      → query_char to_lower content last i c (at ps false k off) ≡ some (at after true k (i + 1))
  unfolding query_char value_char
  value-end last i c ps after k off w ends text stored =
      if_true _ _ ends
      ∙ ap (λ (o : Option Headers). o >>= λ v. some (at v true k (i + 1)))
          (ap (λ t. store_value t (at ps false k off)) text ∙ stored)
