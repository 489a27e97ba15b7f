-- ===== src/Request/Cookies.antt =====
-- The constructor of `TRequest` in http/request.cpp, on the first `Cookie` header.
pub mod Steps
pub mod Round
use cxx_library.Prelude.{
  ℕ, ◌+◌, ◌-◌, Bool, true, false, not, ◌&&◌, ◌||◌, List, [], ◌∷◌, ◌==◌, if◌then◌else◌, take, drop,
  same_bytes,
}
use cxx_library.Request.Text.{Text}

-- `TCookies`, an unordered map
abbrev pub Cookies : Type 0
Cookies = List (List ℕ × List ℕ)

-- `emplace` leaves a key alone that is there.
unfoldable pub emplace : List ℕ → List ℕ → Cookies → Cookies
emplace key value [] = (key, value) ∷ []
emplace key value ((k, v) ∷ rest) =
    let after = emplace key value rest in if same_bytes k key then (k, v) ∷ rest else (k, v) ∷ after

-- the variables of the loop
pub record Reading : Type 0 where
  pub cookies : Cookies
  pub key : List ℕ
  pub offset : ℕ
  pub in_key : Bool
  pub have_key : Bool

-- a space in front of a key
unfoldable pub is_skipped : ℕ → Reading → Bool
is_skipped c r = c == b' ' && r.in_key && not r.have_key

module _ (x : Text) where
  open x use {strip, to_lower}

  unfoldable pub end_key : List ℕ → ℕ → Reading → Reading
  end_key content i r = record r {
    key = to_lower (strip (take (i - r.offset) (drop r.offset content)));
    offset = i + 1;
    in_key = false;
    have_key = if r.in_key then true else r.have_key;
  }

  unfoldable pub end_value : List ℕ → Bool → ℕ → ℕ → Reading → Reading
  unfolding emplace
  end_value content last i c r = record r {
    cookies =
        emplace r.key
          (strip (
            take (i + (if last && not (c == b';') then 1 else 0) - r.offset)
              (drop r.offset content)))
          r.cookies;
    offset = i + 1;
    in_key = true;
    have_key = false;
  }

  -- the body of the loop
  unfoldable pub cookie_char : List ℕ → Bool → ℕ → ℕ → Reading → Reading
  unfolding is_skipped end_key end_value
  cookie_char content last i c r =
      if is_skipped c r
      then record r { offset = i + 1 }
      else if c == b'='
      then end_key content i r
      else if c == b';' || last
      then end_value content last i c r
      else record r { have_key = if r.in_key then true else r.have_key }

  unfoldable pub cookie_chars : List ℕ → ℕ → List ℕ → Reading → Reading
  unfolding cookie_char
  cookie_chars content i [] r = r
  cookie_chars content i (c ∷ []) r = cookie_char content true i c r
  cookie_chars content i (c ∷ d ∷ cs) r =
      cookie_chars content (i + 1) (d ∷ cs) (cookie_char content false i c r)

  unfoldable pub read_cookies : List ℕ → Cookies
  unfolding cookie_chars
  read_cookies content =
      (cookie_chars content 0 content
        (record { cookies = []; key = []; offset = 0; in_key = true; have_key = false })).cookies
