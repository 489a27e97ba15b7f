-- ===== src/Request/Range.antt =====
-- `TRequest::Range` of http/request.cpp. `none` is an exception.
use cxx_library.Prelude.{
  ℕ, Bool, true, false, not, ◌||◌, Option, none, some, List, [], ◌∷◌, ◌++◌, ltb, leb, ◌==◌,
  if◌then◌else◌, length,
}
use cxx_library.Prelude.Options.{◌>>=◌}
use cxx_library.Request.Text.{Text}

-- `TRangeSpec`
pub record RangeSpec : Type 0 where
  pub start : Option ℕ
  pub end : Option ℕ

-- `TRangeHeaderValue`
pub record RangeHeaderValue : Type 0 where
  pub unit : List ℕ
  pub ranges : List RangeSpec

-- the value so far, `tmp` and `tmpSpec`
pub record Reading : Type 0 where
  pub out : RangeHeaderValue
  pub tmp : List ℕ
  pub spec : RangeSpec

abbrev pub no_spec : RangeSpec
no_spec = record { start = none; end = none }

abbrev pub begin : Reading
begin = record { out = record { unit = []; ranges = [] }; tmp = []; spec = no_spec }

-- the chars that are no part of a unit or a number
unfoldable pub is_mark : ℕ → Bool
is_mark c = c == b' ' || c == b',' || c == b'=' || c == b'-'

unfoldable pub keep_char : ℕ → Reading → Reading
unfolding is_mark
keep_char c r = if is_mark c then r else record r { tmp = r.tmp ++ (c ∷ []) }

-- `out.Ranges.emplace_back`, and a new `tmpSpec`
unfoldable pub push_spec : Reading → Reading
push_spec r = record r {
  out = record r.out { ranges = r.out.ranges ++ (r.spec ∷ []) };
  spec = no_spec;
}

-- an `'='`
unfoldable pub read_unit : Bool → Reading → Option Reading
read_unit last r =
    if ltb 0 (length r.out.unit) || last
    then none
    else some (record r { out = record r.out { unit = r.tmp }; tmp = [] })

-- the tests on a complete range
unfoldable pub has_bounds : Option ℕ → Option ℕ → Bool
has_bounds (some s) (some e) = not (leb e s)
has_bounds (some s) none = true
has_bounds none (some e) = true
has_bounds none none = false

unfoldable pub has_start : Option ℕ → Bool
has_start none = false
has_start (some s) = true

module _ (x : Text) where
  open x use {from_string}

  unfoldable pub give_start : Reading → Option Reading
  give_start r =
      if ltb 0 (length r.tmp)
      then (from_string r.tmp >>= λ n.
          some (record r { spec = record r.spec { start = some n }; tmp = [] }))
      else some r

  unfoldable pub give_end : Reading → Option Reading
  give_end r =
      if ltb 0 (length r.tmp)
      then (from_string r.tmp >>= λ n.
          some (record r { spec = record r.spec { end = some n }; tmp = [] }))
      else some r

  -- a `'-'`; behind the last one the moved-from `tmpSpec` is not read again.
  unfoldable pub read_dash : Bool → Reading → Option Reading
  unfolding give_start push_spec has_start
  read_dash last r = give_start r >>= λ t.
      if not last then some t else if has_start t.spec.start then some (push_spec t) else none

  -- a `','`, or the last char
  unfoldable pub read_end : Reading → Option Reading
  unfolding give_end push_spec has_bounds
  read_end r =
      give_end r >>= λ t. if has_bounds t.spec.start t.spec.end then some (push_spec t) else none

  -- the body of the loop
  unfoldable pub read_char : Bool → ℕ → Reading → Option Reading
  unfolding keep_char read_unit read_dash read_end
  read_char last c r =
      let t = keep_char c r in
      if c == b'='
      then read_unit last t
      else if c == b'-'
      then read_dash last t
      else if c == b',' || last
      then read_end t
      else some t

  unfoldable pub read_chars : List ℕ → Reading → Option Reading
  read_chars [] r = some r
  read_chars (c ∷ []) r = read_char true c r
  read_chars (c ∷ d ∷ cs) r = read_char false c r >>= read_chars (d ∷ cs)

  -- `Range`, on the value of the header
  unfoldable pub range : List ℕ → Option RangeHeaderValue
  unfolding read_chars
  range raw = read_chars raw begin >>= λ r. some r.out
