-- ===== src/HeaderValue/Tests.antt =====
-- `ParseHeaderValue` run on a content type.
use cxx_library.Prelude.{ℕ, ◌≡◌, refl, none, List, [], ◌∷◌, ◌++◌, arith}
use cxx_library.Request.Text.{Text}
use cxx_library.Request.Cookies.Round.{Cookie, IsCookie, cookies_text, add_cookies}
use cxx_library.HeaderValue.{parse_header_value}
use cxx_library.HeaderValue.Round.{parse_header_value-text}

-- Nothing to strip, nothing to lower.
abbrev bare_text : Text
bare_text = record {
  from_string = λ t. none;
  to_string = λ n. [];
  strip = λ t. t;
  to_lower = λ t. t;
}

abbrev charset : Cookie
charset = (b'c' ∷ b's' ∷ [], b'u' ∷ b'8' ∷ [])

abbrev kind : List ℕ
kind = b't' ∷ b'/' ∷ b'h' ∷ []

charset-IsCookie : IsCookie charset
charset-IsCookie = (
  (((omega arith, refl, refl), ((omega arith, refl, refl), tt)), omega arith),
  (((omega arith, refl, refl), ((omega arith, refl, refl), tt)), omega arith),
)

parse_header_value-text_example :
    parse_header_value bare_text (kind ++ (b';' ∷ b' ' ∷ cookies_text charset []))
    ≡ (kind, add_cookies bare_text (charset ∷ []) [])
parse_header_value-text_example =
    parse_header_value-text bare_text (λ w h. refl) kind charset []
      ((omega arith, refl, refl), ((omega arith, refl, refl), ((omega arith, refl, refl), tt)))
      (charset-IsCookie, tt)

-- A semicolon that ends the header is kept in the value.
parse_header_value_runs : parse_header_value bare_text (b'a' ∷ b';' ∷ []) ≡ (b'a' ∷ b';' ∷ [], [])
unfolding parse_header_value
parse_header_value_runs = refl
