-- ===== src/HttpLike/Tests.antt =====
-- The parser of httplike/parser/parser.cpp on concrete messages.
use cxx_library.Prelude.{
  arith, ℕ, ◌+◌, ◌≡◌, refl, inr, true, false, ltb, some, List, [], ◌∷◌, ◌++◌, All, length,
}
use cxx_library.Blob.Bare.{bare_blobs}
use cxx_library.HttpLike.Plain.{plain_kit}
use cxx_library.HttpLike.State.{Headers, add_header, find_header, ok, ◌>>=◌, State}
use cxx_library.HttpLike.Line.{is_blank, read_header, read_headers, split_colon}
use cxx_library.HttpLike.Feed.{add}
use cxx_library.HttpLike.Text.{IsText}
use cxx_library.HttpLike.Steps.{heading}
use cxx_library.HttpLike.Head.{Announces}
use cxx_library.HttpLike.Body.{given}
use cxx_library.HttpLike.Message.{text_of, add-message}
use cxx_library.HttpLike.Split.{add-split}

abbrev first : List ℕ
first = b'G' ∷ b' ' ∷ b'/' ∷ 13 ∷ []

abbrev length_line : List ℕ
length_line =
    b'C' ∷ b'o' ∷ b'n' ∷ b't' ∷ b'e' ∷ b'n' ∷ b't' ∷ b'-' ∷ b'l' ∷ b'e' ∷ b'n' ∷ b'g' ∷ b't' ∷ b'h'
    ∷ b':' ∷ b'3' ∷ 13 ∷ []

abbrev headers : Headers
headers =
    (
      b'c' ∷ b'o' ∷ b'n' ∷ b't' ∷ b'e' ∷ b'n' ∷ b't' ∷ b'-' ∷ b'l' ∷ b'e' ∷ b'n' ∷ b'g' ∷ b't'
          ∷ b'h' ∷ [],
      (b'3' ∷ []) ∷ [],
    )
    ∷ []

abbrev content : List ℕ
content = b'a' ∷ 10 ∷ b'b' ∷ []

lines-IsText : All IsText (first ∷ length_line ∷ [])
unfolding is_blank
lines-IsText = ground arith

lines_headers : read_headers plain_kit bare_blobs (length_line ∷ []) ([], false) ≡ (headers, false)
unfolding read_headers read_header is_blank split_colon add_header
lines_headers = refl

lines_announce : Announces plain_kit bare_blobs headers (length content)
unfolding Announces find_header
lines_announce = inr (b'3' ∷ [], [], refl, refl)

add-message_example :
    add plain_kit bare_blobs
      (length (text_of plain_kit bare_blobs (first ∷ length_line ∷ []) content))
      (text_of plain_kit bare_blobs (first ∷ length_line ∷ []) content ++ (b'x' ∷ []))
      (heading plain_kit bare_blobs [] 0 [] [] 0 true)
    ≡ ok (
        heading plain_kit bare_blobs [] 0
          ([]
            ++ (given plain_kit bare_blobs
                  (some (plain_kit.strip first))
                  headers
                  (length content)
                  (text_of plain_kit bare_blobs (first ∷ length_line ∷ []) content)
                ∷ []))
          []
          (length (text_of plain_kit bare_blobs (first ∷ length_line ∷ []) content))
          (ltb 0 (length content)))
add-message_example =
    add-message plain_kit bare_blobs first (length_line ∷ []) headers content (b'x' ∷ []) [] [] 0
      true lines-IsText lines_headers lines_announce

abbrev left : List ℕ
left = b'G' ∷ b' ' ∷ []

abbrev right : List ℕ
right = b'/' ∷ 13 ∷ []

left-IsText : IsText left
unfolding is_blank
left-IsText = ground arith

right-IsText : IsText right
unfolding is_blank
right-IsText = ground arith

add-split_example :
    (s s' : State plain_kit bare_blobs) × (add plain_kit bare_blobs
        (length (left ++ right) + 1)
        (left ++ right ++ (10 ∷ []))
        (heading plain_kit bare_blobs [] 0 [] [] 0 true)
      ≡ ok s)
    × (s.parsed ≡ [])
    × ((add plain_kit bare_blobs
            (length left)
            (left ++ [])
            (heading plain_kit bare_blobs [] 0 [] [] 0 true)
          >>= add plain_kit bare_blobs (length right + 1) (right ++ (10 ∷ [])))
        ≡ ok s')
    × (s'.parsed
        ≡ []
          ++ (given plain_kit bare_blobs
                (some (plain_kit.strip (left ++ right)))
                []
                0
                (left ++ right ++ (10 ∷ []))
              ∷ []))
add-split_example =
    add-split plain_kit bare_blobs left right [] [] [] [] 0 true left-IsText right-IsText
