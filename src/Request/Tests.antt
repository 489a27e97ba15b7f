-- ===== src/Request/Tests.antt =====
-- The reading of requests and `RespondFile` run on numbers written as rows of ones.
use cxx_library.Prelude.{
  map, ◌++◌, ℕ, zero, suc, ap, ◌^◌, ◌<◌, ◌≡◌, refl, false, Option, none, some, List, [], ◌∷◌,
  length, replicate, length-replicate, All, arith,
}
use cxx_library.Blob.Bare.{bare_blobs}
use cxx_library.Url.Query.Lower.{lower_char}
use cxx_library.Url.Query.Round.{Param, add_params}
use cxx_library.Url.Query.Build.{add_all}
use cxx_library.Request.Cookies.{read_cookies}
use cxx_library.Request.Cookies.Round.{
  Cookie, IsCookie, cookies_text, add_cookies, read_cookies-text,
}
use cxx_library.Request.Line.{read_line}
use cxx_library.Request.Line.Split.{first_line}
use cxx_library.Request.Line.Query.{target_of, read_line-query}
use cxx_library.Request.Text.{Text}
use cxx_library.Request.Range.{RangeSpec, range}
use cxx_library.Request.Reads.{IsPlain}
use cxx_library.Request.Range.{is_mark}
use cxx_library.Request.Reply.{respond, respond_file}
use cxx_library.Request.Round.{header_text, range-specs}
use cxx_library.Request.Answers.{
  answer, answer_behind, respond_file-inside, respond_file-past, respond_file-behind,
}

-- A number is a row of ones, one longer than the number.
abbrev read_row : List ℕ → Option ℕ
read_row [] = none
read_row (c ∷ cs) = some (length cs)

abbrev show_row : ℕ → List ℕ
show_row n = b'1' ∷ replicate n b'1'

abbrev rows : Text
rows = record { from_string = read_row; to_string = show_row; strip = λ t. t; to_lower = λ t. t }

show_row-read : (n : ℕ) → n < 2 ^ 64 → rows.from_string (rows.to_string n) ≡ some n
show_row-read n h = ap some (length-replicate n b'1')

ones-IsPlain : (n : ℕ) → All IsPlain (replicate n b'1')
unfolding is_mark
ones-IsPlain zero = tt
ones-IsPlain (suc n) = (refl, ones-IsPlain n)

show_row-IsPlain : (n : ℕ) → All IsPlain (rows.to_string n) × (0 < length (rows.to_string n))
show_row-IsPlain n = (ones-IsPlain (suc n), omega arith)

abbrev letters : List ℕ
letters = b'a' ∷ b'b' ∷ b'c' ∷ b'd' ∷ b'e' ∷ []

abbrev bytes_unit : List ℕ
bytes_unit = b'b' ∷ b'y' ∷ []

abbrev text_type : List ℕ
text_type = b't' ∷ []

bytes_unit-IsPlain : All IsPlain bytes_unit
unfolding is_mark
bytes_unit-IsPlain = (refl, (refl, tt))

abbrev middle : RangeSpec
middle = record { start = some 1; end = some 3 }

abbrev tail_end : RangeSpec
tail_end = record { start = none; end = some 2 }

abbrev too_far : RangeSpec
too_far = record { start = some 2; end = some 5 }

range-specs_example :
    range rows (header_text rows bytes_unit middle (tail_end ∷ []))
    ≡ some (record { unit = bytes_unit; ranges = middle ∷ tail_end ∷ [] })
range-specs_example =
    range-specs rows show_row-read show_row-IsPlain bytes_unit middle (tail_end ∷ [])
      bytes_unit-IsPlain ((omega arith, omega arith), (omega arith, tt))

respond_file-inside_example :
    respond_file rows false (header_text rows bytes_unit middle (tail_end ∷ [])) text_type 5 letters
    ≡ some (answer rows bytes_unit text_type letters middle (tail_end ∷ []))
respond_file-inside_example =
    respond_file-inside rows show_row-read show_row-IsPlain bytes_unit text_type letters
      bytes_unit-IsPlain (omega arith) middle (tail_end ∷ [])
      ((omega arith, omega arith), ((omega arith, omega arith), tt))

respond_file-past_example :
    respond_file rows false (header_text rows bytes_unit middle (too_far ∷ [])) text_type 5 letters
    ≡ some (respond 416)
respond_file-past_example =
    respond_file-past rows show_row-read show_row-IsPlain bytes_unit text_type letters
      bytes_unit-IsPlain (omega arith) middle (too_far ∷ []) (middle ∷ []) too_far [] refl
      ((omega arith, omega arith), ((omega arith, omega arith), tt))
      ((omega arith, omega arith), tt) (omega arith, omega arith)

respond_file-behind_example :
    respond_file rows false
      (header_text rows bytes_unit (record { start = some 6; end = none }) (middle ∷ []))
      text_type
      5
      letters
    ≡ some (answer_behind rows bytes_unit text_type letters 6 (middle ∷ []))
respond_file-behind_example =
    respond_file-behind rows show_row-read show_row-IsPlain bytes_unit text_type letters
      bytes_unit-IsPlain (omega arith) 6 (middle ∷ []) (omega arith) (omega arith)
      ((omega arith, omega arith), tt)

-- "Id" with "4 2", and "all" alone
abbrev number : Param
number = (b'I' ∷ b'd' ∷ [], some (b'4' ∷ b' ' ∷ b'2' ∷ []))

abbrev every : Param
every = (b'a' ∷ b'l' ∷ b'l' ∷ [], none)

read_line-query_example :
    (query : List ℕ) × (add_all bare_blobs (number ∷ every ∷ []) [] ≡ some query)
    × (read_line
          (map lower_char)
          (first_line (b'G' ∷ b'E' ∷ b'T' ∷ []) ((b'/' ∷ b'a' ∷ []) ++ query) (b'H' ∷ b'1' ∷ []))
        ≡ some (
            target_of
              (map lower_char)
              (map lower_char (b'G' ∷ b'E' ∷ b'T' ∷ []))
              (b'/' ∷ b'a' ∷ [])
              (b'H' ∷ b'1' ∷ [])
              (add_params (number ∷ every ∷ []) [])))
read_line-query_example =
    read_line-query bare_blobs (map lower_char) (λ xs h. refl) (b'G' ∷ b'E' ∷ b'T' ∷ [])
      (b'/' ∷ b'a' ∷ []) (b'H' ∷ b'1' ∷ []) number (every ∷ []) (refl, (refl, (refl, tt)))
      ((refl, refl), ((refl, refl), tt)) (refl, (refl, tt)) (omega arith) (omega arith)

abbrev session : Cookie
session = (b's' ∷ b'i' ∷ b'd' ∷ [], b'4' ∷ b'2' ∷ [])

abbrev theme : Cookie
theme = (b't' ∷ [], b'x' ∷ [])

session-IsCookie : IsCookie session
session-IsCookie = (
  (
    ((omega arith, refl, refl), ((omega arith, refl, refl), ((omega arith, refl, refl), tt))),
    omega arith,
  ),
  (((omega arith, refl, refl), ((omega arith, refl, refl), tt)), omega arith),
)

theme-IsCookie : IsCookie theme
theme-IsCookie =
    ((((omega arith, refl, refl), tt), omega arith), (((omega arith, refl, refl), tt), omega arith))

read_cookies-text_example :
    read_cookies rows (cookies_text session (theme ∷ []))
    ≡ add_cookies rows (session ∷ theme ∷ []) []
read_cookies-text_example =
    read_cookies-text rows (λ w h. refl) session (theme ∷ [])
      (session-IsCookie, (theme-IsCookie, tt))

-- An equals sign inside of a value starts a value anew: "a=b=c" is the cookie "b" of value "c".
read_cookies_runs :
    read_cookies rows (b'a' ∷ b'=' ∷ b'b' ∷ b'=' ∷ b'c' ∷ []) ≡ (b'b' ∷ [], b'c' ∷ []) ∷ []
unfolding read_cookies
read_cookies_runs = refl
