-- ===== src/HeaderValue/Round.antt =====
-- Header values with parameters, printed and read back by `ParseHeaderValue`.
use cxx_library.Prelude.{
  ℕ, ◌+◌, ◌-◌, ◌<◌, ◌≡◌, refl, sym, ap, ◌∙◌, true, false, List, [], ◌∷◌, ◌++◌, append-nil,
  append_assoc, length, length-append, take, drop, All, arith,
}
use cxx_library.Request.Text.{Text}
use cxx_library.Request.Cookies.{Cookies, emplace}
use cxx_library.Request.Cookies.Steps.{IsCookieChar, IsPrinting, cookie-IsPrinting}
use cxx_library.Request.Cookies.Round.{
  Cookie, IsCookie, cookies_text, add_cookies, texts_some, behind, length-behind,
}
use cxx_library.Request.Line.Words.{piece}
use cxx_library.HeaderValue.{
  end_dest, end_param_key, end_param, skip_space, param_char, value_char, value_chars,
  parse_header_value,
}
use cxx_library.HeaderValue.Steps.{
  at_dest, at, outcome, chars-cons, dest-chars, chars-settled, value-last,
}

module _ (x : Text) (strips : (w : List ℕ) → All IsPrinting w → x.strip w ≡ w)
    (content : List ℕ) where
  strip-piece :
      (pre w rest : List ℕ) (off n : ℕ)
      → content ≡ pre ++ (w ++ rest)
      → off ≡ length pre
      → n ≡ length w
      → All IsCookieChar w
      → x.strip (take n (drop off content)) ≡ w
  strip-piece pre w rest off n e at_pre size h =
      ap x.strip (piece content pre w rest off n e at_pre size) ∙ strips w (cookie-IsPrinting w h)

  char-equals :
      (i : ℕ) (d : List ℕ) (ps : Cookies) (k : List ℕ) (off : ℕ)
      → value_char x content false i b'=' (at d ps k off true true)
        ≡ at d ps (x.to_lower (x.strip (take (i - off) (drop off content)))) (i + 1) false true
  unfolding value_char skip_space param_char end_param_key
  char-equals i d ps k off = refl

  char-semicolon :
      (i : ℕ) (d : List ℕ) (ps : Cookies) (k : List ℕ) (off : ℕ)
      → value_char x content false i b';' (at d ps k off false true)
        ≡ at d (emplace k (x.strip (take (i + 0 - off) (drop off content))) ps) k (i + 1) true false
  unfolding value_char skip_space param_char end_param
  char-semicolon i d ps k off = refl

  char-dest :
      (i : ℕ)
      → value_char x content false i b';' at_dest
        ≡ at (x.to_lower (x.strip (take (i + 0 - 0) (drop 0 content)))) [] [] (i + 1) true false
  unfolding value_char end_dest
  char-dest i = refl

  char-space :
      (i : ℕ) (d : List ℕ) (ps : Cookies) (k : List ℕ) (off : ℕ)
      → value_char x content false i b' ' (at d ps k off true false) ≡ at d ps k (i + 1) true true
  unfolding value_char skip_space param_char
  char-space i d ps k off = refl

  name-read :
      (key rest pre : List ℕ) (off : ℕ) (d : List ℕ) (ps : Cookies) (k : List ℕ)
      → content ≡ pre ++ (key ++ (b'=' ∷ rest))
      → off ≡ length pre
      → All IsCookieChar key
      → 0 < length rest
      → value_chars x content off (key ++ (b'=' ∷ rest)) (at d ps k off true true)
        ≡ value_chars x content
            (off + length key + 1)
            rest
            (at d ps (x.to_lower key) (off + length key + 1) false true)
  name-read key rest pre off d ps k e at_pre h some_rest =
      let i = off + length key in
      let size : i - off ≡ length key = omega arith in
      chars-settled x content off key (b'=' ∷ rest) d ps k off i true h (omega arith) refl
      ∙ chars-cons x content i b'=' rest (at d ps k off true true) some_rest
      ∙ ap (λ r. value_chars x content (i + 1) rest r)
          (char-equals i d ps k off
            ∙ ap (λ t. at d ps (x.to_lower t) (i + 1) false true)
                (strip-piece pre key (b'=' ∷ rest) off _ e at_pre size h))

  value-read :
      (value rest pre : List ℕ) (off : ℕ) (d : List ℕ) (ps : Cookies) (k : List ℕ) (j : ℕ)
      → content ≡ pre ++ (value ++ (b';' ∷ b' ' ∷ rest))
      → off ≡ length pre
      → All IsCookieChar value
      → 0 < length rest
      → j ≡ off + length value + 2
      → value_chars x content off (value ++ (b';' ∷ b' ' ∷ rest)) (at d ps k off false true)
        ≡ value_chars x content j rest (at d (emplace k value ps) k j true true)
  value-read value rest pre off d ps k j e at_pre h some_rest at_j =
      let i = off + length value in
      let size : i + 0 - off ≡ length value = omega arith in
      let same : i + 1 + 1 ≡ j = omega arith in
      let next = emplace k value ps in
      chars-settled x content off value (b';' ∷ b' ' ∷ rest) d ps k off i false h (omega arith) refl
      ∙ chars-cons x content i b';' (b' ' ∷ rest) (at d ps k off false true) (omega arith)
      ∙ ap (λ r. value_chars x content (i + 1) (b' ' ∷ rest) r)
          (char-semicolon i d ps k off
            ∙ ap (λ t. at d (emplace k t ps) k (i + 1) true false)
                (strip-piece pre value (b';' ∷ b' ' ∷ rest) off _ e at_pre size h))
      ∙ chars-cons x content (i + 1) b' ' rest (at d next k (i + 1) true false) some_rest
      ∙ ap (λ r. value_chars x content (i + 1 + 1) rest r) (char-space (i + 1) d next k (i + 1))
      ∙ ap (λ n. value_chars x content n rest (at d next k n true true)) same

  value-end :
      (value pre : List ℕ) (off : ℕ) (d : List ℕ) (ps : Cookies) (k : List ℕ)
      → content ≡ pre ++ value
      → off ≡ length pre
      → All IsCookieChar value
      → 0 < length value
      → outcome (value_chars x content off value (at d ps k off false true))
        ≡ (d, emplace k value ps)
  value-end [] pre off d ps k e at_pre h some_value = absurd (omega arith)
  value-end (c ∷ w) pre off d ps k e at_pre h some_value =
      let size : length (c ∷ w) ≡ off + length (c ∷ w) - off = omega arith in
      value-last x content off c w d ps k off _ h size
      ∙ ap (λ t. (d, emplace k t ps))
          (strip-piece pre (c ∷ w) [] off _ (e ∙ ap (λ t. pre ++ t) (sym (append-nil (c ∷ w))))
            at_pre refl h)

  params-read :
      (p : Cookie) (ps : List Cookie) (pre : List ℕ) (off : ℕ) (d : List ℕ) (cs : Cookies)
      (k : List ℕ)
      → content ≡ pre ++ cookies_text p ps
      → off ≡ length pre
      → All IsCookie (p ∷ ps)
      → outcome (value_chars x content off (cookies_text p ps) (at d cs k off true true))
        ≡ (d, add_cookies x (p ∷ ps) cs)
  params-read (key, value) [] pre off d cs k e at_pre h =
      let front = pre ++ (key ++ (b'=' ∷ [])) in
      ap outcome (name-read key value pre off d cs k e at_pre h.0.0.0 h.0.1.1)
      ∙ value-end value front _ d cs (x.to_lower key) (behind content pre key (b'=' ∷ []) value e)
          (length-behind pre key (b'=' ∷ []) off 1 at_pre refl) h.0.1.0 h.0.1.1
  params-read (key, value) (p' ∷ ps) pre off d cs k e at_pre h =
      let rest = cookies_text p' ps in
      let tail = value ++ (b';' ∷ b' ' ∷ rest) in
      let some_tail : 0 < length tail = omega (arith, length-append value (b';' ∷ b' ' ∷ rest)) in
      let front = pre ++ (key ++ (b'=' ∷ [])) in
      let joined = append_assoc key (b'=' ∷ value) (b';' ∷ b' ' ∷ rest) in
      let split = e ∙ ap (λ t. pre ++ t) joined in
      let split' = behind content pre key (b'=' ∷ []) tail split in
      let off' = off + length key + 1 in
      let at_front = length-behind pre key (b'=' ∷ []) off 1 at_pre refl in
      let next = emplace (x.to_lower key) value cs in
      ap (λ (t : List ℕ). outcome (value_chars x content off t (at d cs k off true true))) joined
      ∙ ap outcome (
          name-read key tail pre off d cs k split at_pre h.0.0.0 some_tail
          ∙ value-read value rest front off' d cs (x.to_lower key) _ split' at_front h.0.1.0
              (texts_some p' ps) refl)
      ∙ params-read p' ps (front ++ (value ++ (b';' ∷ b' ' ∷ []))) _ d next (x.to_lower key)
          (behind content front value (b';' ∷ b' ' ∷ []) rest split')
          (length-behind front value (b';' ∷ b' ' ∷ []) off' 2 at_front refl) h.1

-- Of a header value that prints a value and at least one parameter, with a semicolon and a space in
-- front of each parameter and an equals sign behind its name, `ParseHeaderValue` gives the value as
-- `ToLower` gives it, and the parameters: each under its name as `ToLower` gives it, the first one
-- where names are the same. Parameters and their names are not empty, and all chars are behind the
-- space in the table and no equals signs or semicolons, so that `Strip` is taken to leave them
-- alone.
pub parse_header_value-text :
    (x : Text)
    → ((w : List ℕ) → All IsPrinting w → x.strip w ≡ w)
    → (w : List ℕ) (p : Cookie) (ps : List Cookie) → All IsCookieChar w
    → All IsCookie (p ∷ ps)
    → parse_header_value x (w ++ (b';' ∷ b' ' ∷ cookies_text p ps))
      ≡ (x.to_lower w, add_cookies x (p ∷ ps) [])
unfolding parse_header_value
parse_header_value-text x strips w p ps clear h =
    let rest = cookies_text p ps in
    let content = w ++ (b';' ∷ b' ' ∷ rest) in
    let i = 0 + length w in
    let size : i + 0 - 0 ≡ length w = omega arith in
    ap outcome (
      dest-chars x content 0 w (b';' ∷ b' ' ∷ rest) i clear (omega arith) refl
      ∙ chars-cons x content i b';' (b' ' ∷ rest) at_dest (omega arith)
      ∙ ap (λ r. value_chars x content (i + 1) (b' ' ∷ rest) r)
          (char-dest x strips content i
            ∙ ap (λ t. at (x.to_lower t) [] [] (i + 1) true false)
                (strip-piece x strips content [] w (b';' ∷ b' ' ∷ rest) 0 _ refl refl size clear))
      ∙ chars-cons x content (i + 1) b' ' rest (at (x.to_lower w) [] [] (i + 1) true false)
          (texts_some p ps)
      ∙ ap (λ r. value_chars x content (i + 1 + 1) rest r)
          (char-space x strips content (i + 1) (x.to_lower w) [] [] (i + 1)))
    ∙ params-read x strips content p ps (w ++ (b';' ∷ b' ' ∷ [])) (i + 1 + 1) (x.to_lower w) [] []
        (sym (append_assoc w (b';' ∷ b' ' ∷ []) rest))
        (omega (arith, length-append w (b';' ∷ b' ' ∷ []))) h
