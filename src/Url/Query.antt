-- ===== src/Url/Query.antt =====
-- `ParseQueryParams` of http/urlescape.cpp, and `TQueryParamsBuilder` of http/urlescape.hpp.
-- `none` is a fault of `URLUnescape` or `URLEscape`.
pub mod Steps
pub mod Lower
pub mod Pieces
pub mod Round
pub mod Build
use cxx_library.Prelude.{
  ℕ, ◌+◌, ◌-◌, Bool, true, false, not, ◌&&◌, ◌||◌, Option, none, some, List, [], ◌∷◌, ◌++◌, ltb,
  ◌==◌, if◌then◌else◌, length, take, drop,
}
use cxx_library.Prelude.Options.{◌>>=◌}
use cxx_library.Blob.{BlobOps}
use cxx_library.HttpLike.State.{Headers, add_header}
use cxx_library.Url.{url_unescape, url_escape}

-- `TQueryParams` is the same type as `THeaders`.
-- the variables of the loop
pub record Query : Type 0 where
  pub params : Headers
  pub in_key : Bool
  pub key : List ℕ
  pub offset : ℕ

-- `URLUnescape` of a string
unfoldable pub unescape_text : List ℕ → Option (List ℕ)
unescape_text t = url_unescape (length t) t >>= λ r. some (take r.0 r.1)

unfoldable pub text_at : ℕ → ℕ → List ℕ → List ℕ
text_at from n content = take n (drop from content)

-- `out[key].emplace_back()`, for a key that is not empty
unfoldable pub add_empty : List ℕ → Headers → Headers
add_empty key ps = if ltb 0 (length key) then add_header key [] ps else ps

unfoldable pub ends_key : ℕ → Bool
ends_key c = c == b'=' || c == b'&' || c == b'#'

unfoldable pub ends_value : ℕ → Bool
ends_value c = c == b'&' || c == b'#'

-- The char at index `i` belongs to the text when it is the last one and ends nothing.
unfoldable pub text_size : Bool → Bool → ℕ → ℕ → ℕ
text_size ends last i offset = i + (if last && not ends then 1 else 0) - offset

unfoldable pub store_key : Bool → ℕ → ℕ → List ℕ → Query → Query
unfolding add_empty
store_key last i c key q =
    if c == b'=' && not last
    then record q { in_key = false; key = key; offset = i + 1 }
    else record q { params = add_empty key q.params; key = key; offset = i + 1 }

-- the value, if it is not empty, or an empty one
unfoldable pub store_value : List ℕ → Query → Option Headers
unfolding unescape_text add_empty
store_value text q =
    if ltb 0 (length text)
    then (unescape_text text >>= λ value. some (add_header q.key value q.params))
    else some (add_empty q.key q.params)

unfoldable pub value_char : List ℕ → Bool → ℕ → ℕ → Query → Option Query
unfolding ends_value text_at text_size store_value
value_char content last i c q =
    if ends_value c || last
    then (store_value (text_at q.offset (text_size (ends_value c) last i q.offset) content) q
        >>= λ ps. some (record q { params = ps; in_key = true; offset = i + 1 }))
    else some q

module _ (to_lower : List ℕ → List ℕ) where
  unfoldable pub key_char : List ℕ → Bool → ℕ → ℕ → Query → Option Query
  unfolding ends_key text_at text_size unescape_text store_key
  key_char content last i c q =
      if ends_key c || last
      then (unescape_text
            (to_lower (text_at q.offset (text_size (ends_key c) last i q.offset) content))
          >>= λ key. some (store_key last i c key q))
      else some q

  -- the body of the loop, up to the `break`
  unfoldable pub query_char : List ℕ → Bool → ℕ → ℕ → Query → Option Query
  unfolding key_char value_char
  query_char content last i c q =
      if q.in_key then key_char content last i c q else value_char content last i c q

  -- the loop, with the chars that are left
  unfoldable pub query_chars : List ℕ → ℕ → List ℕ → Query → Option Query
  query_chars content i [] q = some q
  query_chars content i (c ∷ []) q = query_char content true i c q
  query_chars content i (c ∷ d ∷ cs) q = query_char content false i c q >>= λ r. elim (c == b'#') [
    | true ↦ some r
    | false ↦ query_chars content (i + 1) (d ∷ cs) r
  ]

  unfoldable pub parse_query_params : List ℕ → Option Headers
  unfolding query_chars
  parse_query_params content =
      query_chars content 0 content (record { params = []; in_key = true; key = []; offset = 0 })
      >>= λ q. some q.params

module _ (o : BlobOps) where
  open o use {Blob, bytes, append}

  -- `TQueryParamsBuilder::Add` of a key
  unfoldable pub add_key : List ℕ → Blob → Option Blob
  add_key key out = url_escape o key >>= λ text.
      some (
        append (bytes text) (append (if length (bytes out) == 0 then b'?' ∷ [] else b'&' ∷ []) out))

  -- `Add` of a key and a value
  unfoldable pub add_pair : List ℕ → List ℕ → Blob → Option Blob
  unfolding add_key
  add_pair key value out = do
    out' ← add_key key out
    text ← url_escape o value
    some (append (bytes text) (append (b'=' ∷ []) out'))
