-- ===== src/Url/Tests.antt =====
-- Runs of http/urlescape.cpp, and its theorems at concrete inputs.
use cxx_library.Prelude.{ℕ, ◌≡◌, refl, none, some, List, [], ◌∷◌, ◌++◌, length, map, drop, arith}
use cxx_library.Blob.Bare.{bare_blobs}
use cxx_library.Url.{url_unescape, url_escape, escape_char, is_plain, hex_digit}
use cxx_library.Url.Unescape.{decode, Writes, url_unescape-decode}
use cxx_library.Url.Query.{parse_query_params}
use cxx_library.Url.Query.Lower.{lower_char}
use cxx_library.Url.Query.Round.{Param, add_params}
use cxx_library.Url.Query.Build.{add_all, parse_query_params-add_all}
use cxx_library.Url.RoundTrip.{url_unescape-url_escape, url_escape_fault}

-- "a%41+%4"
abbrev coded : List ℕ
coded = b'a' ∷ b'%' ∷ b'4' ∷ b'1' ∷ b'+' ∷ b'%' ∷ b'4' ∷ []

-- "é" in UTF-8, behind "a"
abbrev accented : List ℕ
accented = b'a' ∷ 0xc3 ∷ 0xa9 ∷ []

unescape_runs :
    url_unescape 7 (coded ++ (b'%' ∷ []))
    ≡ some (5, b'a' ∷ b'A' ∷ b' ' ∷ b'%' ∷ b'4' ∷ b'%' ∷ b'4' ∷ b'%' ∷ [])
unfolding url_unescape
unescape_runs = refl

-- A char of 128 or more behind a percent sign is read out of the table's range.
unescape_faults : url_unescape 3 (b'%' ∷ 0xc3 ∷ 0xa9 ∷ []) ≡ none
unfolding url_unescape
unescape_faults = refl

escape_runs :
    url_escape bare_blobs (b'a' ∷ b' ' ∷ b'&' ∷ []) ≡ some (b'a' ∷ b'+' ∷ b'%' ∷ b'2' ∷ b'6' ∷ [])
unfolding url_escape escape_char is_plain hex_digit
escape_runs = refl

url_unescape-decode_example :
    Writes (decode coded) (url_unescape 7 (coded ++ (b'%' ∷ []))) [] (b'%' ∷ []) 7
url_unescape-decode_example = url_unescape-decode coded (b'%' ∷ [])

url_unescape-url_escape_example :
    (out : List ℕ) × (url_escape bare_blobs (b'a' ∷ b'%' ∷ b' ' ∷ []) ≡ some out)
    × Writes
        (some (b'a' ∷ b'%' ∷ b' ' ∷ []))
        (url_unescape (length out) (out ++ (7 ∷ [])))
        []
        (7 ∷ [])
        (length out)
url_unescape-url_escape_example =
    url_unescape-url_escape bare_blobs (b'a' ∷ b'%' ∷ b' ' ∷ []) (7 ∷ []) (omega arith)

url_escape_fault_example : url_escape bare_blobs accented ≡ none
url_escape_fault_example =
    url_escape_fault bare_blobs (b'a' ∷ []) (0xa9 ∷ []) 0xc3 (omega arith) (omega arith)

-- "Key" with "a=b", and "x" alone
abbrev keyed : Param
keyed = (b'K' ∷ b'e' ∷ b'y' ∷ [], some (b'a' ∷ b'=' ∷ b'b' ∷ []))

abbrev alone : Param
alone = (b'x' ∷ [], none)

parse_query_params-add_all_example :
    (out : List ℕ) × (add_all bare_blobs (keyed ∷ alone ∷ []) [] ≡ some out)
    × (parse_query_params (map lower_char) (drop 1 out) ≡ some (add_params (keyed ∷ alone ∷ []) []))
parse_query_params-add_all_example =
    parse_query_params-add_all bare_blobs (map lower_char) (λ xs h. refl) keyed (alone ∷ [])
      (omega arith)
