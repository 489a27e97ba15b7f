-- ===== src/HttpLike/State.antt =====
-- `TParserState`, `TLocalParserState` and `TParsedData` of httplike/parser, and the methods of the
-- first.
use cxx_library.Prelude.{
  ℕ, ◌+◌, ◌-◌, Bool, true, false, Option, none, some, List, [], ◌∷◌, ◌++◌, ltb, if◌then◌else◌,
  length, drop, get_or, same_bytes,
}
use cxx_library.Blob.{BlobOps}
use cxx_library.HttpLike.Kit.{Kit}

-- `THeaders`, an unordered map
abbrev pub Headers : Type 0
Headers = List (List ℕ × List (List ℕ))

-- `headers[key].emplace_back(value)`
unfoldable pub add_header : List ℕ → List ℕ → Headers → Headers
add_header key value [] = (key, value ∷ []) ∷ []
add_header key value ((k, vs) ∷ rest) =
    let after = add_header key value rest in
    if same_bytes k key then (k, vs ++ (value ∷ [])) ∷ rest else (k, vs) ∷ after

-- `headers.find(key)`
unfoldable pub find_header : List ℕ → Headers → Option (List (List ℕ))
find_header key [] = none
find_header key ((k, vs) ∷ rest) =
    let after = find_header key rest in if same_bytes k key then some vs else after

-- `TParsedData`: the body is `none` for a null pointer.
pub record ParsedData : Type 0 where
  pub first_line : Option (List ℕ)
  pub headers : Headers
  pub body : Option (List ℕ)
  pub request : List ℕ

-- How a part of the parser ends: with a value, with the exception, or with a read out of range.
pub data Result (S : Type 0) : Type 0 where
  ok : S → Result S
  thrown : Result S
  fault : Result S

infixl 5 ◌>>=◌
abbrev pub ◌>>=◌ : {S T : Type 0} → Result S → (S → Result T) → Result T
ok s >>= f = f s
thrown >>= f = thrown
fault >>= f = fault

-- `TParserState` and, below `processed` and `is_first`, `TLocalParserState` of the call.
pub record ParserState (D B : Type 0) : Type 0 where
  pub first_line : Option (List ℕ)
  pub headers : Headers
  pub request : D
  pub in_content : Bool
  pub content_length : ℕ
  pub original_length : ℕ
  pub parsed : List ParsedData
  pub infer_length : Bool
  pub chunked : Bool
  pub no_first_line : Bool
  pub copy : Bool
  pub stream : Bool
  pub effective : ℕ
  pub buf : B
  pub processed : ℕ
  pub is_first : Bool

module _ (k : Kit) (o : BlobOps) where
  open k use {Disk, bytes, fresh, has_data, append, finish}
  open o use {Blob}

  abbrev pub State : Type 0
  State = ParserState Disk Blob

  -- the constructor's values
  abbrev pub init : State
  init = record {
    first_line = none;
    headers = [];
    request = fresh;
    in_content = false;
    content_length = 0;
    original_length = 0;
    parsed = [];
    infer_length = false;
    chunked = false;
    no_first_line = false;
    copy = true;
    stream = true;
    effective = 0;
    buf = o.empty;
    processed = 0;
    is_first = true;
  }

  -- `AppendToCurrentRequest`
  unfoldable pub append_request : List ℕ → State → State
  append_request xs s =
      if s.copy
      then record s { request = append xs s.request; effective = s.effective + length xs }
      else record s { effective = s.effective + length xs }

  -- `CurrentRequestLastChar`
  unfoldable pub last_char : State → ℕ
  last_char s =
      if has_data s.request then get_or (bytes s.request) (length (bytes s.request) - 1) 0 else 0

  -- the assignments at the end of `Flush`
  unfoldable pub reset : State → State
  reset s = record s {
    first_line = none;
    headers = [];
    request = fresh;
    in_content = false;
    content_length = 0;
    original_length = 0;
    infer_length = false;
    chunked = false;
    no_first_line = false;
    copy = true;
    stream = true;
    effective = 0;
    is_first = true;
  }

  -- the last `n` bytes of a request, `none` for a null pointer; a start before the request's is a
  -- fault.
  unfoldable pub body_of : ℕ → List ℕ → Result (Option (List ℕ))
  body_of n req =
      if ltb 0 n
      then (if ltb (length req) n then fault else ok (some (drop (length req - n) req)))
      else ok none

  unfoldable pub emit : List ℕ → Option (List ℕ) → State → State
  unfolding reset
  emit req body s = record (reset s) {
    parsed =
        s.parsed
        ++ (record { first_line = s.first_line; headers = s.headers; body = body; request = req }
            ∷ []);
  }

  unfoldable pub flush_request : List ℕ → State → Result State
  unfolding body_of emit
  flush_request req s =
      if ltb 0 (length req)
      then (body_of s.original_length req >>= λ body. ok (emit req body s))
      else ok (reset s)

  -- `Flush`
  unfoldable pub flush : State → Result State
  unfolding flush_request
  flush s = flush_request (bytes (finish s.request)) s
