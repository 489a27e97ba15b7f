-- ===== src/Url/Query/Build.antt =====
-- `TQueryParamsBuilder` of http/urlescape.hpp: what it writes, and what `ParseQueryParams` makes of it.
use cxx_library.Prelude.{
  ℕ, ◌<◌, ◌≡◌, refl, ap, ◌∙◌, Bool, true, false, Option, none, some, List, [], ◌∷◌, ◌++◌, map,
  append_assoc, ◌==◌, if◌then◌else◌, length, length-append, drop, All, arith,
}
use cxx_library.Prelude.Options.{◌>>=◌}
use cxx_library.Blob.{BlobOps}
use cxx_library.Url.{url_escape}
use cxx_library.Url.RoundTrip.{IsAscii, encode, escape_chars_ascii}
use cxx_library.Url.Query.{parse_query_params, add_key, add_pair}
use cxx_library.Url.Query.Lower.{lower_char}
use cxx_library.Url.Query.Round.{Param, IsParam, param_text, params_text, add_params, parse-params}

-- the char in front of a parameter
abbrev mark_if : Bool → ℕ
mark_if empty_so_far = if empty_so_far then b'?' else b'&'

mark_text : (b : Bool) → (if b then b'?' ∷ [] else b'&' ∷ []) ≡ mark_if b ∷ []
mark_text true = refl
mark_text false = refl

module _ (o : BlobOps) where
  open o use {Blob, bytes, empty, append, bytes-empty, bytes-append, bytes-reserve}

  -- `Add` for each of the parameters
  abbrev pub add_param : Param → Blob → Option Blob
  add_param (key, none) out = add_key o key out
  add_param (key, some value) out = add_pair o key value out

  abbrev pub add_all : List Param → Blob → Option Blob
  add_all [] out = some out
  add_all (p ∷ ps) out = add_param p out >>= add_all ps

  escape-encode :
      (cs : List ℕ)
      → All IsAscii cs
      → (out : Blob) × (url_escape o cs ≡ some out) × (bytes out ≡ encode cs)
  unfolding url_escape
  escape-encode cs h =
      let (out, e, b) = escape_chars_ascii o cs _ h in
      (out, e, b ∙ ap (λ t. t ++ encode cs) (bytes-reserve (length cs) empty ∙ bytes-empty))

  abbrev mark : Blob → ℕ
  mark out = mark_if (length (bytes out) == 0)

  key-text :
      (key : List ℕ) (out : Blob)
      → All IsAscii key
      → (out' : Blob) × (add_key o key out ≡ some out')
        × (bytes out' ≡ bytes out ++ (mark out ∷ encode key))
  unfolding add_key
  key-text key out h =
      let (text, e, b) = escape-encode key h in
      (
        _,
        ap
            (λ v. v >>= λ t. some (
              append (bytes t)
                (append (if length (bytes out) == 0 then b'?' ∷ [] else b'&' ∷ []) out)))
            e,
        bytes-append (bytes text) _
            ∙ ap (λ t. t ++ bytes text) (bytes-append _ out)
            ∙ ap (λ t. (bytes out ++ t) ++ bytes text) (mark_text (length (bytes out) == 0))
            ∙ ap (λ t. (bytes out ++ (mark out ∷ [])) ++ t) b
            ∙ append_assoc (bytes out) (mark out ∷ []) (encode key),
      )

  add-text :
      (p : Param) (out : Blob)
      → IsParam p
      → (out' : Blob) × (add_param p out ≡ some out')
        × (bytes out' ≡ bytes out ++ (mark out ∷ param_text p))
  unfolding add_pair
  add-text (key, none) out h = key-text key out h.0
  add-text (key, some value) out h =
      let (mid, made, keyed) = key-text key out h.0.0 in
      let (text, e, b) = escape-encode value h.1 in
      (
        append (bytes text) (append (b'=' ∷ []) mid),
        ap
              (λ (v : Option Blob). v >>= λ out'.
                url_escape o value >>= λ t. some (append (bytes t) (append (b'=' ∷ []) out')))
              made
            ∙ ap (λ v. v >>= λ t. some (append (bytes t) (append (b'=' ∷ []) mid))) e,
        bytes-append (bytes text) (append (b'=' ∷ []) mid)
            ∙ ap (λ t. t ++ bytes text) (bytes-append (b'=' ∷ []) mid)
            ∙ ap (λ t. (bytes mid ++ (b'=' ∷ [])) ++ t) b
            ∙ append_assoc (bytes mid) (b'=' ∷ []) (encode value)
            ∙ ap (λ t. t ++ (b'=' ∷ encode value)) keyed
            ∙ append_assoc (bytes out) (mark out ∷ encode key) (b'=' ∷ encode value),
      )

  marked : (out : Blob) → 0 < length (bytes out) → mark out ≡ b'&'
  marked out h = let used : (length (bytes out) == 0) ≡ false = ground arith in ap mark_if used

  more-text :
      (p : Param) (ps : List Param) (out : Blob)
      → All IsParam (p ∷ ps)
      → 0 < length (bytes out)
      → (out' : Blob) × (add_all (p ∷ ps) out ≡ some out')
        × (bytes out' ≡ bytes out ++ (b'&' ∷ params_text p ps))
  more-text p [] out h some_out =
      let (out', made, text) = add-text p out h.0 in
      (
        out',
        ap (λ v. v >>= λ b. some b) made,
        text ∙ ap (λ c. bytes out ++ (c ∷ param_text p)) (marked out some_out),
      )
  more-text p (p' ∷ ps) out h some_out =
      let (mid, made, text) = add-text p out h.0 in
      let some_mid : 0 < length (bytes mid) =
        omega (arith, ap length text, length-append (bytes out) (mark out ∷ param_text p)) in
      let (out', rest, texts) = more-text p' ps mid h.1 some_mid in
      (
        out',
        ap (λ v. v >>= add_all (p' ∷ ps)) made ∙ rest,
        texts
            ∙ ap (λ t. t ++ (b'&' ∷ params_text p' ps)) text
            ∙ append_assoc (bytes out) (mark out ∷ param_text p) (b'&' ∷ params_text p' ps)
            ∙ ap (λ c. bytes out ++ (c ∷ (param_text p ++ (b'&' ∷ params_text p' ps))))
                (marked out some_out),
      )

  first-text :
      (p : Param)
      → IsParam p
      → (out : Blob) × (add_param p empty ≡ some out) × (bytes out ≡ b'?' ∷ param_text p)
  first-text p h =
      let (out, made, text) = add-text p empty h in
      (
        out,
        made,
        text ∙ ap (λ (t : List ℕ). t ++ (mark_if (length t == 0) ∷ param_text p)) bytes-empty,
      )

  pub added-text :
      (p : Param) (ps : List Param)
      → All IsParam (p ∷ ps)
      → (out : Blob) × (add_all (p ∷ ps) empty ≡ some out) × (bytes out ≡ b'?' ∷ params_text p ps)
  added-text p [] h =
      let (out, made, text) = first-text p h.0 in (out, ap (λ v. v >>= λ b. some b) made, text)
  added-text p (p' ∷ ps) h =
      let (mid, made, text) = first-text p h.0 in
      let some_mid : 0 < length (bytes mid) = omega (arith, ap length text) in
      let (out, rest, texts) = more-text p' ps mid h.1 some_mid in
      (
        out,
        ap (λ v. v >>= add_all (p' ∷ ps)) made ∙ rest,
        texts ∙ ap (λ t. t ++ (b'&' ∷ params_text p' ps)) text,
      )

  -- The query that the builder writes for at least one parameter is written without a fault, and
  -- `ParseQueryParams`, given what stands behind its question mark, gives the parameters back: the
  -- values in the order of the calls, each under its key in lower case, an empty one for a key that
  -- was added alone. Keys are not empty; keys and values are chars below 128, on which `ToLower` is
  -- taken to work like the C locale's `tolower`.
  pub parse_query_params-add_all :
      (to_lower : List ℕ → List ℕ)
      → ((xs : List ℕ) → All IsAscii xs → to_lower xs ≡ map lower_char xs)
      → (p : Param) (ps : List Param) → All IsParam (p ∷ ps)
      → (out : Blob) × (add_all (p ∷ ps) empty ≡ some out)
        × (parse_query_params to_lower (drop 1 (bytes out)) ≡ some (add_params (p ∷ ps) []))
  parse_query_params-add_all to_lower lowers p ps h =
      let (out, made, text) = added-text p ps h in
      (
        out,
        made,
        ap (λ t. parse_query_params to_lower (drop 1 t)) text ∙ parse-params to_lower lowers p ps h,
      )
