-- ===== src/Request/Line.antt =====
-- The constructor of `TRequest` in http/request.cpp, on the first line: the method, the path, the
-- protocol and the query. `none` is a fault of `ParseQueryParams`.
pub mod Words
pub mod Split
pub mod Query
use cxx_library.Prelude.{
  ℕ, ◌+◌, ◌-◌, Bool, true, false, ◌||◌, Option, none, some, List, [], ◌∷◌, ◌++◌, ◌==◌,
  if◌then◌else◌, length, take, drop,
}
use cxx_library.Prelude.Options.{◌>>=◌}
use cxx_library.HttpLike.State.{Headers}
use cxx_library.Url.Query.{parse_query_params}

-- `Method_`, `Path_` and `Protocol_`
pub record RequestLine : Type 0 where
  pub method : List ℕ
  pub path : List ℕ
  pub protocol : List ℕ

-- the entries of the queue `out`
pub data Field : Type 0 where
  method_field path_field protocol_field : Field

abbrev pub is_end : List ℕ → Bool
is_end [] = true
is_end (c ∷ cs) = false

-- What the constructor makes of the first line, the path cut off its query.
pub record Target : Type 0 where
  pub line : RequestLine
  pub query_params : Headers

module _ (to_lower : List ℕ → List ℕ) where
  unfoldable pub assign : Field → List ℕ → RequestLine → RequestLine
  assign method_field text r = record r { method = to_lower text }
  assign path_field text r = record r { path = text }
  assign protocol_field text r = record r { protocol = text }

  -- the loop over the first line; it breaks when the queue is empty.
  unfoldable pub line_chars : List ℕ → ℕ → List ℕ → ℕ → List Field → RequestLine → RequestLine
  unfolding assign
  line_chars content i [] offset fields r = r
  line_chars content i (c ∷ cs) offset [] r = r
  line_chars content i (c ∷ cs) offset (f ∷ fields) r = elim (c == b' ' || is_end cs) [
    | true ↦
        line_chars content (i + 1) cs (i + 1) fields
          (assign f (take (i + (if is_end cs then 1 else 0) - offset) (drop offset content)) r)
    | false ↦ line_chars content (i + 1) cs offset (f ∷ fields) r
  ]

  -- the loop over the path; the flag is `inQueryParams`. It returns `pathSize` and the parameters.
  unfoldable pub path_chars : List ℕ → ℕ → List ℕ → Bool → ℕ → ℕ → Option (ℕ × Headers)
  path_chars path i [] in_query offset path_size = some (path_size, [])
  path_chars path i (c ∷ cs) true offset path_size =
      parse_query_params to_lower (drop offset path) >>= λ ps. some (path_size, ps)
  path_chars path i (c ∷ cs) false offset path_size = elim (c == b'?') [
    | true ↦ path_chars path (i + 1) cs true (i + 1) i
    | false ↦ path_chars path (i + 1) cs false offset path_size
  ]

  unfoldable pub split_path : RequestLine → Option Target
  unfolding path_chars
  split_path r = path_chars r.path 0 r.path false 0 (length r.path) >>= λ found.
      some (record { line = record r { path = take found.0 r.path }; query_params = found.1 })

  unfoldable pub read_line : List ℕ → Option Target
  unfolding line_chars split_path
  read_line content = split_path (
      line_chars content 0 content 0 (method_field ∷ path_field ∷ protocol_field ∷ [])
        (record { method = []; path = []; protocol = [] }))
