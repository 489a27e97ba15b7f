-- ===== src/Request/Reply.antt =====
-- `TRequest::RespondFile` of http/request.cpp, on data in memory. `none` is an exception of
-- `Range`, or the read of an empty `TMaybe`.
use cxx_library.Prelude.{
  ℕ, ◌+◌, ◌-◌, ◌%◌, ◌^◌, Bool, true, false, Option, none, some, List, [], ◌∷◌, ◌++◌, ltb, leb,
  if◌then◌else◌, length, take, drop,
}
use cxx_library.Prelude.Options.{◌>>=◌}
use cxx_library.HttpLike.State.{Headers, add_header}
use cxx_library.Request.Text.{Text}
use cxx_library.Request.Range.{RangeSpec, range}

-- What `Wrap` leaves in a response's blob, which raises nothing: bytes of the data, or a place and a
-- number of bytes from there on that do not all lie in the data.
pub data Body : Type 0 where
  wrapped : List ℕ → Body
  wrapped_outside : ℕ → ℕ → Body

-- a part of a `TResponse`, itself one that has no parts
pub record Part : Type 0 where
  pub headers : Headers
  pub body : Body

-- `TResponse`, with the status code of its first line
pub record Response : Type 0 where
  pub status : ℕ
  pub main : Part
  pub add_length : Bool
  pub parts : List Part

abbrev pub bare_part : Part
bare_part = record { headers = []; body = wrapped [] }

-- `Respond200()` and the like
abbrev pub respond : ℕ → Response
respond code = record { status = code; main = bare_part; add_length = true; parts = [] }

-- `Wrap(size, data + from)`
unfoldable pub wrap : ℕ → ℕ → List ℕ → Part → Part
wrap from n data_bytes p = record p {
  body =
      if leb (from + n) (length data_bytes)
      then wrapped (take n (drop from data_bytes))
      else wrapped_outside from n;
}

-- `end`, counted up where there is a start
unfoldable pub end_of : Option ℕ → Option ℕ → Option ℕ
end_of s none = none
end_of none (some e) = some e
end_of (some s) (some e) = some ((e + 1) % 2 ^ 64)

-- `*end > size`
unfoldable pub is_past : ℕ → Option ℕ → Bool
is_past size none = false
is_past size (some e) = ltb size e

-- `fromByte` and `partSize`; a range with no start and no end reads an empty `TMaybe`.
unfoldable pub bounds : ℕ → Option ℕ → Option ℕ → Option (ℕ × ℕ)
bounds size (some s) (some e) = some (s, (e + 2 ^ 64 - s) % 2 ^ 64)
bounds size (some s) none = some (s, (size + 2 ^ 64 - s) % 2 ^ 64)
bounds size none (some e) = some ((size + 2 ^ 64 - e) % 2 ^ 64, e)
bounds size none none = none

abbrev pub content_type : List ℕ
content_type =
    b'C' ∷ b'o' ∷ b'n' ∷ b't' ∷ b'e' ∷ b'n' ∷ b't' ∷ b'-' ∷ b'T' ∷ b'y' ∷ b'p' ∷ b'e' ∷ []

abbrev pub content_range : List ℕ
content_range =
    b'C' ∷ b'o' ∷ b'n' ∷ b't' ∷ b'e' ∷ b'n' ∷ b't' ∷ b'-' ∷ b'R' ∷ b'a' ∷ b'n' ∷ b'g' ∷ b'e' ∷ []

abbrev pub content_length : List ℕ
content_length =
    b'C' ∷ b'o' ∷ b'n' ∷ b't' ∷ b'e' ∷ b'n' ∷ b't' ∷ b'-' ∷ b'L' ∷ b'e' ∷ b'n' ∷ b'g' ∷ b't' ∷ b'h'
    ∷ []

abbrev pub accept_ranges : List ℕ
accept_ranges =
    b'A' ∷ b'c' ∷ b'c' ∷ b'e' ∷ b'p' ∷ b't' ∷ b'-' ∷ b'R' ∷ b'a' ∷ b'n' ∷ b'g' ∷ b'e' ∷ b's' ∷ []

abbrev pub byteranges : List ℕ
byteranges =
    b'm' ∷ b'u' ∷ b'l' ∷ b't' ∷ b'i' ∷ b'p' ∷ b'a' ∷ b'r' ∷ b't' ∷ b'/' ∷ b'b' ∷ b'y' ∷ b't' ∷ b'e'
    ∷ b'r' ∷ b'a' ∷ b'n' ∷ b'g' ∷ b'e' ∷ b's' ∷ []

module _ (x : Text) where
  open x use {to_string, to_lower}

  -- `TResponse::Header`
  unfoldable pub header : List ℕ → List ℕ → Part → Part
  header key value p = record p { headers = add_header (to_lower key) value p.headers }

  -- the value of `Content-Range`
  unfoldable pub range_text : List ℕ → ℕ → ℕ → ℕ → List ℕ
  range_text unit from n size =
      unit
      ++ (b' ' ∷ [])
      ++ to_string from
      ++ (b'-' ∷ [])
      ++ to_string ((from + n + 2 ^ 64 - 1) % 2 ^ 64)
      ++ (b'/' ∷ [])
      ++ to_string size

  -- the part that a range asks for, or `none` for `Respond416`
  unfoldable pub part_of : List ℕ → List ℕ → ℕ → List ℕ → RangeSpec → Part → Option (Option Part)
  unfolding end_of is_past bounds wrap header range_text
  part_of unit ctype size data_bytes spec p =
      if is_past size (end_of spec.start spec.end) then some none else (do
        b ← bounds size spec.start (end_of spec.start spec.end)
        some (
            some (
              wrap b.0 b.1 data_bytes (
                header content_range (range_text unit b.0 b.1 size)
                  (header content_type ctype p)))))

  -- the loop over more than one range
  unfoldable pub add_parts :
      List ℕ → List ℕ → ℕ → List ℕ → List RangeSpec → Response → Option Response
  unfolding part_of
  add_parts unit ctype size data_bytes [] r =
      some (record r { main = header content_type byteranges r.main })
  add_parts unit ctype size data_bytes (spec ∷ specs) r =
      part_of unit ctype size data_bytes spec bare_part >>= λ made. elim made [
        | none ↦ some (respond 416)
        | some p ↦
            add_parts unit ctype size data_bytes specs (record r { parts = r.parts ++ (p ∷ []) })
      ]

  -- the answer to a `HEAD`
  unfoldable pub respond_head : List ℕ → ℕ → Response
  unfolding header
  respond_head ctype size = record (respond 200) {
    add_length = false;
    main = header content_type ctype (
        header accept_ranges (b'b' ∷ b'y' ∷ b't' ∷ b'e' ∷ b's' ∷ [])
          (header content_length (to_string size) bare_part));
  }

  -- one range, whose part is the response itself
  unfoldable pub respond_one : List ℕ → List ℕ → ℕ → List ℕ → RangeSpec → Option Response
  unfolding part_of
  respond_one unit ctype size data_bytes spec =
      part_of unit ctype size data_bytes spec bare_part >>= λ made. elim made [
        | none ↦ some (respond 416)
        | some p ↦ some (record (respond 206) { main = p })
      ]

  -- the rest of `RespondFile`, by the number of ranges
  unfoldable pub respond_ranges : List ℕ → List ℕ → ℕ → List ℕ → List RangeSpec → Option Response
  unfolding header wrap respond_one add_parts
  respond_ranges unit ctype size data_bytes [] =
      some (record (respond 200) {
        main = wrap 0 size data_bytes (header content_type ctype bare_part);
      })
  respond_ranges unit ctype size data_bytes (spec ∷ []) =
      respond_one unit ctype size data_bytes spec
  respond_ranges unit ctype size data_bytes (spec ∷ spec' ∷ specs) =
      add_parts unit ctype size data_bytes (spec ∷ spec' ∷ specs) (respond 206)

  -- `RespondFile`, on `IsHead()` and the value of the `Range` header
  unfoldable pub respond_file : Bool → List ℕ → List ℕ → ℕ → List ℕ → Option Response
  unfolding respond_head respond_ranges
  respond_file head raw ctype size data_bytes =
      if head
      then some (respond_head ctype size)
      else (range x raw >>= λ value. respond_ranges value.unit ctype size data_bytes value.ranges)
