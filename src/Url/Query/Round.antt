-- ===== src/Url/Query/Round.antt =====
-- `ParseQueryParams` on what `TQueryParamsBuilder` writes.
use cxx_library.Prelude.{
  ℕ, ◌+◌, ◌<◌, ◌≡◌, refl, sym, ap, ◌∙◌, true, Option, none, some, List, [], ◌∷◌, ◌++◌, map,
  append_assoc, length, length-append, All, arith, length-map,
}
use cxx_library.Prelude.Options.{◌>>=◌}
use cxx_library.HttpLike.State.{Headers, add_header}
use cxx_library.Url.RoundTrip.{IsAscii, encode}
use cxx_library.Url.Query.{Query, query_chars, parse_query_params}
use cxx_library.Url.Query.Lower.{lower_char, encode_some}
use cxx_library.Url.Query.Pieces.{
  key-and, key-equals, key-equals-last, key-last, value-and, value-last,
}
use cxx_library.Url.Query.Steps.{at}

-- A key, and its value if it has one.
abbrev pub Param : Type 0
Param = List ℕ × Option (List ℕ)

abbrev pub IsParam : Param → Type 0
IsParam (key, none) = All IsAscii key × (0 < length key)
IsParam (key, some value) = (All IsAscii key × (0 < length key)) × All IsAscii value

abbrev pub param_text : Param → List ℕ
param_text (key, none) = encode key
param_text (key, some value) = encode key ++ (b'=' ∷ encode value)

abbrev pub params_text : Param → List Param → List ℕ
params_text p [] = param_text p
params_text p (p' ∷ ps) = param_text p ++ (b'&' ∷ params_text p' ps)

abbrev pub value_of : Option (List ℕ) → List ℕ
value_of none = []
value_of (some value) = value

-- The values under their keys in lower case, one after the other; an empty one where there is none.
abbrev pub add_params : List Param → Headers → Headers
add_params [] hs = hs
add_params (p ∷ ps) hs = add_params ps (add_header (map lower_char p.0) (value_of p.1) hs)

param_some : (p : Param) → IsParam p → 0 < length (param_text p)
param_some (key, none) h = encode_some key h.1
param_some (key, some value) h = omega (arith, length-append (encode key) (b'=' ∷ encode value))

pub params_some : (p : Param) (ps : List Param) → IsParam p → 0 < length (params_text p ps)
params_some p [] h = param_some p h
params_some p (p' ∷ ps) h = omega (arith, length-append (param_text p) (b'&' ∷ params_text p' ps))

-- what stands in front of a value
abbrev front : List ℕ → List ℕ → List ℕ
front pre key = pre ++ (encode key ++ (b'=' ∷ []))

front-split :
    (content pre key tail : List ℕ)
    → content ≡ pre ++ (encode key ++ (b'=' ∷ tail))
    → content ≡ front pre key ++ tail
front-split content pre key tail e =
    e
    ∙ ap (λ t. pre ++ t) (sym (append_assoc (encode key) (b'=' ∷ []) tail))
    ∙ sym (append_assoc pre (encode key ++ (b'=' ∷ [])) tail)

length-front :
    (pre key : List ℕ) (off : ℕ)
    → off ≡ length pre
    → off + length (encode key) + 1 ≡ length (front pre key)
length-front pre key off e =
    omega
      (arith, length-append pre (encode key ++ (b'=' ∷ [])), length-append (encode key) (b'=' ∷ []))

module _ (to_lower : List ℕ → List ℕ)
    (lowers : (xs : List ℕ) → All IsAscii xs → to_lower xs ≡ map lower_char xs)
    (content : List ℕ) where
  some_low : (key : List ℕ) → 0 < length key → 0 < length (map lower_char key)
  some_low key h = omega (arith, length-map key lower_char)

  param-more :
      (p : Param) (pre rest : List ℕ) (off : ℕ) (hs : Headers) (k : List ℕ) (j : ℕ)
      → off ≡ length pre
      → content ≡ pre ++ (param_text p ++ (b'&' ∷ rest))
      → IsParam p
      → 0 < length rest
      → j ≡ off + length (param_text p) + 1
      → query_chars to_lower content off (param_text p ++ (b'&' ∷ rest)) (at hs true k off)
        ≡ query_chars to_lower content j rest
            (at (add_header (map lower_char p.0) (value_of p.1) hs) true (map lower_char p.0) j)
  param-more (key, none) pre rest off hs k j at_pre e h some_rest at_j =
      let low = map lower_char key in
      let same : off + length (encode key) + 1 ≡ j = omega arith in
      key-and to_lower lowers content pre off at_pre key rest hs k _ e h.0 h.1 some_rest refl
      ∙ ap (λ n. query_chars to_lower content n rest (at (add_header low [] hs) true low n)) same
  param-more (key, some value) pre rest off hs k j at_pre e h some_rest at_j =
      let low = map lower_char key in
      let tail = encode value ++ (b'&' ∷ rest) in
      let joined = append_assoc (encode key) (b'=' ∷ encode value) (b'&' ∷ rest) in
      let i = off + length (encode key) + 1 in
      let split = e ∙ ap (λ t. pre ++ t) joined in
      let same : i + length (encode value) + 1 ≡ j =
        omega (arith, length-append (encode key) (b'=' ∷ encode value)) in
      ap (λ t. query_chars to_lower content off t (at hs true k off)) joined
      ∙ key-equals to_lower lowers content pre off at_pre key tail hs k _ split h.0.0
          (omega (arith, length-append (encode value) (b'&' ∷ rest))) refl
      ∙ value-and to_lower lowers content (front pre key) i (length-front pre key off at_pre) value
          rest hs low _ (front-split content pre key tail split) h.1 (some_low key h.0.1) some_rest
          refl
      ∙ ap (λ n. query_chars to_lower content n rest (at (add_header low value hs) true low n)) same

  param-last :
      (p : Param) (pre : List ℕ) (off : ℕ) (hs : Headers) (k : List ℕ)
      → off ≡ length pre
      → content ≡ pre ++ param_text p
      → IsParam p
      → (query_chars to_lower content off (param_text p) (at hs true k off) >>= λ q. some q.params)
        ≡ some (add_header (map lower_char p.0) (value_of p.1) hs)
  param-last (key, none) pre off hs k at_pre e h =
      key-last to_lower lowers content pre off at_pre key hs k e h.0 h.1
  param-last (key, some []) pre off hs k at_pre e h =
      unfold encode in key-equals-last to_lower lowers content pre off at_pre key hs k e h.0.0 h.0.1
  param-last (key, some (c ∷ cs)) pre off hs k at_pre e h =
      let low = map lower_char key in
      let text = encode (c ∷ cs) in
      let some_text = encode_some (c ∷ cs) (omega arith) in
      ap (λ (o : Option Query). o >>= λ q. some q.params)
        (key-equals to_lower lowers content pre off at_pre key text hs k _ e h.0.0 some_text refl)
      ∙ value-last to_lower lowers content (front pre key) (off + length (encode key) + 1)
          (length-front pre key off at_pre) (c ∷ cs) hs low (front-split content pre key text e) h.1
          (omega arith) (some_low key h.0.1)

  params-read :
      (p : Param) (ps : List Param) (pre : List ℕ) (off : ℕ) (hs : Headers) (k : List ℕ)
      → off ≡ length pre
      → content ≡ pre ++ params_text p ps
      → All IsParam (p ∷ ps)
      → (query_chars to_lower content off (params_text p ps) (at hs true k off) >>= λ q.
          some q.params)
        ≡ some (add_params (p ∷ ps) hs)
  params-read p [] pre off hs k at_pre e h = param-last p pre off hs k at_pre e h.0
  params-read p (p' ∷ ps) pre off hs k at_pre e h =
      let tail = params_text p' ps in
      let before = pre ++ (param_text p ++ (b'&' ∷ [])) in
      let at_before : off + length (param_text p) + 1 ≡ length before = omega (
        arith,
        length-append pre (param_text p ++ (b'&' ∷ [])),
        length-append (param_text p) (b'&' ∷ []),
      ) in
      let split : content ≡ before ++ tail =
        e
        ∙ ap (λ t. pre ++ t) (sym (append_assoc (param_text p) (b'&' ∷ []) tail))
        ∙ sym (append_assoc pre (param_text p ++ (b'&' ∷ [])) tail) in
      ap (λ (o : Option Query). o >>= λ q. some q.params)
        (param-more p pre tail off hs k _ at_pre e h.0 (params_some p' ps h.1.0) refl)
      ∙ params-read p' ps before _ (add_header (map lower_char p.0) (value_of p.1) hs)
          (map lower_char p.0) at_before split h.1

pub parse-params :
    (to_lower : List ℕ → List ℕ)
    → ((xs : List ℕ) → All IsAscii xs → to_lower xs ≡ map lower_char xs)
    → (p : Param) (ps : List Param) → All IsParam (p ∷ ps)
    → parse_query_params to_lower (params_text p ps) ≡ some (add_params (p ∷ ps) [])
unfolding parse_query_params
parse-params to_lower lowers p ps h =
    params-read to_lower lowers (params_text p ps) p ps [] 0 [] [] refl refl h
