-- ===== src/Request/Line/Query.antt =====
-- The constructor of `TRequest` on the query that `TQueryParamsBuilder` of http/urlescape.hpp writes.
use cxx_library.Prelude.{
  ℕ, ◌+◌, ◌<◌, ◌≡◌, refl, sym, ap, ◌∙◌, Bool, true, not, ◌&&◌, Option, none, some, List, [], ◌∷◌,
  ◌++◌, append_assoc, ◌==◌, length, length-append, take, drop, drop-middle, take-front, map, All,
  All-append, arith, holds_below, below-holds,
}
use cxx_library.Prelude.Options.{◌>>=◌}
use cxx_library.Blob.{BlobOps}
use cxx_library.HttpLike.State.{Headers}
use cxx_library.Url.{is_plain, hex_digit}
use cxx_library.Url.RoundTrip.{IsAscii, encode_char, encode}
use cxx_library.Url.Query.{parse_query_params}
use cxx_library.Url.Query.Lower.{lower_char}
use cxx_library.Url.Query.Round.{
  Param, IsParam, param_text, params_text, params_some, add_params, parse-params,
}
use cxx_library.Url.Query.Build.{add_all, added-text}
use cxx_library.Request.Line.{Target, split_path, read_line}
use cxx_library.Request.Line.Words.{IsWord, IsPathChar, path-mark}
use cxx_library.Request.Line.Split.{first_line, read_line-split}

has_no_space : List ℕ → Bool
has_no_space [] = true
has_no_space (c ∷ cs) = not (c == b' ') && has_no_space cs

words-IsWord : (cs : List ℕ) → has_no_space cs ≡ true → All IsWord cs
unfolding has_no_space
words-IsWord [] h = tt
words-IsWord (c ∷ cs) h = (ground (arith, h), words-IsWord cs (ground (arith, h)))

space_table : holds_below 128 (λ c. has_no_space (encode_char c)) ≡ true
unfolding holds_below has_no_space encode_char is_plain hex_digit
space_table = refl

encode-IsWord : (cs : List ℕ) → All IsAscii cs → All IsWord (encode cs)
unfolding encode
encode-IsWord [] h = tt
encode-IsWord (c ∷ cs) h =
    All-append IsWord (encode_char c) (encode cs)
      (words-IsWord (encode_char c)
        (below-holds 128 (λ d. has_no_space (encode_char d)) c space_table h.0))
      (encode-IsWord cs h.1)

param-IsWord : (p : Param) → IsParam p → All IsWord (param_text p)
param-IsWord (key, none) h = encode-IsWord key h.0
param-IsWord (key, some value) h =
    All-append IsWord (encode key) (b'=' ∷ encode value) (encode-IsWord key h.0.0)
      (refl, encode-IsWord value h.1)

params-IsWord : (p : Param) (ps : List Param) → All IsParam (p ∷ ps) → All IsWord (params_text p ps)
params-IsWord p [] h = param-IsWord p h.0
params-IsWord p (p' ∷ ps) h =
    All-append IsWord (param_text p) (b'&' ∷ params_text p' ps) (param-IsWord p h.0)
      (refl, params-IsWord p' ps h.1)

path-IsWord : (p : List ℕ) → All IsPathChar p → All IsWord p
path-IsWord [] h = tt
path-IsWord (c ∷ p) h = (h.0.0, path-IsWord p h.1)

module _ (to_lower : List ℕ → List ℕ) where
  -- the request's fields
  abbrev pub target_of : List ℕ → List ℕ → List ℕ → Headers → Target
  target_of method path protocol ps = record {
    line = record { method = method; path = path; protocol = protocol };
    query_params = ps;
  }

  split-query :
      (method p q protocol : List ℕ) (ps : Headers)
      → All IsPathChar p
      → 0 < length q
      → parse_query_params to_lower q ≡ some ps
      → split_path to_lower
          (record { method = method; path = p ++ (b'?' ∷ q); protocol = protocol })
        ≡ some (target_of method p protocol ps)
  unfolding split_path
  split-query method p [] protocol ps h some_q parsed = absurd (omega arith)
  split-query method p (c ∷ q) protocol ps h some_q parsed =
      let path = p ++ (b'?' ∷ c ∷ q) in
      let n = length p in
      let at_query : n + 1 ≡ length (p ++ (b'?' ∷ [])) =
        omega (arith, length-append p (b'?' ∷ [])) in
      let behind : drop (n + 1) path ≡ c ∷ q =
        ap (drop (n + 1)) (sym (append_assoc p (b'?' ∷ []) (c ∷ q)))
        ∙ drop-middle (p ++ (b'?' ∷ [])) (c ∷ q) (n + 1) at_query in
      ap
        (λ (o : Option (ℕ × Headers)).
          o >>= λ found. some (target_of method (take found.0 path) protocol found.1))
        (path-mark to_lower path 0 path p q (length path) 0 n c h (omega arith)
          ∙ ap (λ (o : Option Headers). o >>= λ v. some (n, v))
              (ap (parse_query_params to_lower) behind ∙ parsed))
      ∙ ap (λ t. some (target_of method t protocol ps)) (take-front p (b'?' ∷ c ∷ q) n refl)

module _ (o : BlobOps) where
  open o use {Blob, bytes, empty}

  -- A first line of a method, a path, the query that the builder writes for at least one parameter,
  -- and a protocol, with a space between them, is read as that: the method as `ToLower` gives it, the
  -- path without the query, the protocol, and the parameters as they were added, each value under
  -- its key in lower case. The method and the protocol have no space, the path no space and no
  -- question mark, and the protocol is not empty. Keys are not empty; keys and values are chars below
  -- 128, on which `ToLower` is taken to work like the C locale's `tolower`.
  pub read_line-query :
      (to_lower : List ℕ → List ℕ)
      → ((xs : List ℕ) → All IsAscii xs → to_lower xs ≡ map lower_char xs)
      → (method path protocol : List ℕ) (p : Param) (ps : List Param) → All IsWord method
      → All IsPathChar path
      → All IsWord protocol
      → 0 < length protocol
      → All IsParam (p ∷ ps)
      → (query : Blob) × (add_all o (p ∷ ps) empty ≡ some query)
        × (read_line to_lower (first_line method (path ++ bytes query) protocol)
            ≡ some (target_of to_lower (to_lower method) path protocol (add_params (p ∷ ps) [])))
  read_line-query to_lower lowers method path protocol p ps words clear words' some_protocol h =
      let (query, made, text) = added-text o p ps h in
      let target = path ++ (b'?' ∷ params_text p ps) in
      let words'' =
        All-append IsWord path (b'?' ∷ params_text p ps) (path-IsWord path clear)
          (refl, params-IsWord p ps h) in
      (
        query,
        made,
        ap (λ t. read_line to_lower (first_line method (path ++ t) protocol)) text
            ∙ read_line-split to_lower method target protocol words words'' words' some_protocol
            ∙ split-query to_lower (to_lower method) path (params_text p ps) protocol
                (add_params (p ∷ ps) []) clear (params_some p ps h.0)
                (parse-params to_lower lowers p ps h),
      )
