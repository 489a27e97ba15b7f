-- ===== src/HeaderValue.antt =====
-- `ParseHeaderValue` of http/utils/headers.cpp.
pub mod Steps
pub mod Round
mod Tests
use cxx_library.Prelude.{
  ℕ, ◌+◌, ◌-◌, Bool, true, false, not, ◌&&◌, ◌||◌, List, [], ◌∷◌, ◌==◌, if◌then◌else◌, take, drop,
}
use cxx_library.Request.Text.{Text}
use cxx_library.Request.Cookies.{Cookies, emplace}

-- the variables of the loop; `THeaderParams` is the same type as `TCookies`.
pub record Reading : Type 0 where
  pub dest : List ℕ
  pub params : Cookies
  pub key : List ℕ
  pub offset : ℕ
  pub in_key : Bool
  pub have_key : Bool
  pub in_params : Bool

module _ (x : Text) where
  open x use {strip, to_lower}

  -- the end of the value itself
  unfoldable pub end_dest : List ℕ → Bool → ℕ → Reading → Reading
  end_dest content last i r = record r {
    dest = to_lower (strip (take (i + (if last then 1 else 0) - r.offset) (drop r.offset content)));
    in_params = true;
    offset = i + 1;
  }

  unfoldable pub end_param_key : List ℕ → ℕ → Reading → Reading
  end_param_key content i r = record r {
    key = to_lower (strip (take (i - r.offset) (drop r.offset content)));
    offset = i + 1;
    in_key = false;
  }

  unfoldable pub end_param : List ℕ → Bool → ℕ → Reading → Reading
  end_param content last i r = record r {
    params =
        emplace r.key
          (strip (take (i + (if last then 1 else 0) - r.offset) (drop r.offset content))) r.params;
    offset = i + 1;
    in_key = true;
    have_key = false;
  }

  -- A space in front of a key moves the offset; any char of a key, that space too, sets `haveKey`.
  unfoldable pub skip_space : ℕ → ℕ → Reading → Reading
  skip_space i c r = record r {
    offset = if c == b' ' && r.in_key && not r.have_key then i + 1 else r.offset;
    have_key = if r.in_key then true else r.have_key;
  }

  unfoldable pub param_char : List ℕ → Bool → ℕ → ℕ → Reading → Reading
  unfolding end_param_key end_param
  param_char content last i c r =
      if c == b'='
      then end_param_key content i r
      else if c == b';' || last
      then end_param content last i r
      else r

  -- the body of the loop
  unfoldable pub value_char : List ℕ → Bool → ℕ → ℕ → Reading → Reading
  unfolding end_dest skip_space param_char
  value_char content last i c r =
      if r.in_params
      then param_char content last i c (skip_space i c r)
      else if last || c == b';'
      then end_dest content last i r
      else r

  unfoldable pub value_chars : List ℕ → ℕ → List ℕ → Reading → Reading
  unfolding value_char
  value_chars content i [] r = r
  value_chars content i (c ∷ []) r = value_char content true i c r
  value_chars content i (c ∷ d ∷ cs) r =
      value_chars content (i + 1) (d ∷ cs) (value_char content false i c r)

  -- `ParseHeaderValue` into an empty string and an empty map
  unfoldable pub parse_header_value : List ℕ → List ℕ × Cookies
  unfolding value_chars
  parse_header_value content =
      let r = value_chars content 0 content (record {
        dest = [];
        params = [];
        key = [];
        offset = 0;
        in_key = true;
        have_key = false;
        in_params = false;
      }) in
      (r.dest, r.params)
