-- ===== src/Request/Cookies/Round.antt =====
-- The cookies of a request, printed and read back.
use cxx_library.Prelude.{
  ℕ, ◌+◌, ◌-◌, ◌<◌, ◌≡◌, refl, sym, ap, ◌∙◌, true, false, List, [], ◌∷◌, ◌++◌, append-nil,
  append_assoc, length, length-append, take, drop, All, arith,
}
use cxx_library.Request.Text.{Text}
use cxx_library.Request.Cookies.{Cookies, emplace, Reading, cookie_chars, read_cookies}
use cxx_library.Request.Line.Words.{piece}
use cxx_library.Request.Cookies.Steps.{
  IsCookieChar, IsPrinting, at, cookie-IsPrinting, chars-cons, chars-settled, chars-key, value-last,
  char-equals, char-semicolon, char-space,
}

-- A name and a value.
abbrev pub Cookie : Type 0
Cookie = List ℕ × List ℕ

abbrev pub IsCookie : Cookie → Type 0
IsCookie (key, value) =
    (All IsCookieChar key × (0 < length key)) × (All IsCookieChar value × (0 < length value))

abbrev pub cookie_text : Cookie → List ℕ
cookie_text (key, value) = key ++ (b'=' ∷ value)

-- The cookies with a semicolon and a space between them.
abbrev pub cookies_text : Cookie → List Cookie → List ℕ
cookies_text k [] = cookie_text k
cookies_text k (k' ∷ ks) = cookie_text k ++ (b';' ∷ b' ' ∷ cookies_text k' ks)

-- Each value under its name in lower case, if the name is not there already.
abbrev pub add_cookies : Text → List Cookie → Cookies → Cookies
add_cookies x [] cs = cs
add_cookies x ((key, value) ∷ ks) cs = add_cookies x ks (emplace (x.to_lower key) value cs)

text_some : (k : Cookie) → 0 < length (cookie_text k)
text_some (key, value) = omega (arith, length-append key (b'=' ∷ value))

pub texts_some : (k : Cookie) (ks : List Cookie) → 0 < length (cookies_text k ks)
texts_some k [] = text_some k
texts_some k (k' ∷ ks) =
    omega (arith, length-append (cookie_text k) (b';' ∷ b' ' ∷ cookies_text k' ks))

-- The content behind a text and the chars that end it.
pub behind :
    (content pre w ends tail : List ℕ)
    → content ≡ pre ++ (w ++ (ends ++ tail))
    → content ≡ (pre ++ (w ++ ends)) ++ tail
behind content pre w ends tail e =
    e
    ∙ ap (λ t. pre ++ t) (sym (append_assoc w ends tail))
    ∙ sym (append_assoc pre (w ++ ends) tail)

pub length-behind :
    (pre w ends : List ℕ) (off n : ℕ)
    → off ≡ length pre
    → n ≡ length ends
    → off + length w + n ≡ length (pre ++ (w ++ ends))
length-behind pre w ends off n e size =
    omega (arith, length-append pre (w ++ ends), length-append w ends)

module _ (x : Text) (strips : (w : List ℕ) → All IsPrinting w → x.strip w ≡ w)
    (content : List ℕ) where
  strip-piece :
      (pre w rest : List ℕ) (off n : ℕ)
      → content ≡ pre ++ (w ++ rest)
      → off ≡ length pre
      → n ≡ length w
      → All IsCookieChar w
      → x.strip (take n (drop off content)) ≡ w
  strip-piece pre w rest off n e at_pre size h =
      ap x.strip (piece content pre w rest off n e at_pre size) ∙ strips w (cookie-IsPrinting w h)

  -- a name and the equals sign behind it
  name-read :
      (key rest pre : List ℕ) (off : ℕ) (cs : Cookies) (k : List ℕ) (j : ℕ)
      → content ≡ pre ++ (key ++ (b'=' ∷ rest))
      → off ≡ length pre
      → All IsCookieChar key
      → 0 < length key
      → 0 < length rest
      → j ≡ off + length key + 1
      → cookie_chars x content off (key ++ (b'=' ∷ rest)) (at cs k off true false)
        ≡ cookie_chars x content j rest (at cs (x.to_lower key) j false true)
  name-read key rest pre off cs k j e at_pre h some_key some_rest at_j =
      let i = off + length key in
      let size : i - off ≡ length key = omega arith in
      let same : i + 1 ≡ j = omega arith in
      chars-key x content off key (b'=' ∷ rest) cs k off i h some_key (omega arith) refl
      ∙ chars-cons x content i b'=' rest (at cs k off true true) some_rest
      ∙ ap (λ r. cookie_chars x content (i + 1) rest r)
          (char-equals x content i cs k off
            ∙ ap (λ t. at cs (x.to_lower t) (i + 1) false true)
                (strip-piece pre key (b'=' ∷ rest) off _ e at_pre size h))
      ∙ ap (λ n. cookie_chars x content n rest (at cs (x.to_lower key) n false true)) same

  -- a value, and the semicolon and the space behind it
  value-read :
      (value rest pre : List ℕ) (off : ℕ) (cs : Cookies) (k : List ℕ) (j : ℕ)
      → content ≡ pre ++ (value ++ (b';' ∷ b' ' ∷ rest))
      → off ≡ length pre
      → All IsCookieChar value
      → 0 < length rest
      → j ≡ off + length value + 2
      → cookie_chars x content off (value ++ (b';' ∷ b' ' ∷ rest)) (at cs k off false true)
        ≡ cookie_chars x content j rest (at (emplace k value cs) k j true false)
  value-read value rest pre off cs k j e at_pre h some_rest at_j =
      let i = off + length value in
      let size : i + 0 - off ≡ length value = omega arith in
      let same : i + 1 + 1 ≡ j = omega arith in
      chars-settled x content off value (b';' ∷ b' ' ∷ rest) cs k off i false true h (omega arith)
        refl refl
      ∙ chars-cons x content i b';' (b' ' ∷ rest) (at cs k off false true) (omega arith)
      ∙ ap (λ r. cookie_chars x content (i + 1) (b' ' ∷ rest) r)
          (char-semicolon x content i cs k off
            ∙ ap (λ t. at (emplace k t cs) k (i + 1) true false)
                (strip-piece pre value (b';' ∷ b' ' ∷ rest) off _ e at_pre size h))
      ∙ chars-cons x content (i + 1) b' ' rest (at (emplace k value cs) k (i + 1) true false)
          some_rest
      ∙ ap (λ r. cookie_chars x content (i + 1 + 1) rest r)
          (char-space x content (i + 1) (emplace k value cs) k (i + 1))
      ∙ ap (λ n. cookie_chars x content n rest (at (emplace k value cs) k n true false)) same

  value-end :
      (value pre : List ℕ) (off : ℕ) (cs : Cookies) (k : List ℕ)
      → content ≡ pre ++ value
      → off ≡ length pre
      → All IsCookieChar value
      → 0 < length value
      → (cookie_chars x content off value (at cs k off false true)).cookies ≡ emplace k value cs
  value-end [] pre off cs k e at_pre h some_value = absurd (omega arith)
  value-end (c ∷ w) pre off cs k e at_pre h some_value =
      let size : length (c ∷ w) ≡ off + length (c ∷ w) - off = omega arith in
      value-last x content off c w cs k off _ h size
      ∙ ap (λ t. emplace k t cs)
          (strip-piece pre (c ∷ w) [] off _ (e ∙ ap (λ t. pre ++ t) (sym (append-nil (c ∷ w))))
            at_pre refl h)

  cookies-read :
      (k : Cookie) (ks : List Cookie) (pre : List ℕ) (off : ℕ) (cs : Cookies) (k0 : List ℕ)
      → content ≡ pre ++ cookies_text k ks
      → off ≡ length pre
      → All IsCookie (k ∷ ks)
      → (cookie_chars x content off (cookies_text k ks) (at cs k0 off true false)).cookies
        ≡ add_cookies x (k ∷ ks) cs
  cookies-read (key, value) [] pre off cs k0 e at_pre h =
      let front = pre ++ (key ++ (b'=' ∷ [])) in
      ap (λ (r : Reading). r.cookies)
        (name-read key value pre off cs k0 _ e at_pre h.0.0.0 h.0.0.1 h.0.1.1 refl)
      ∙ value-end value front _ cs (x.to_lower key) (behind content pre key (b'=' ∷ []) value e)
          (length-behind pre key (b'=' ∷ []) off 1 at_pre refl) h.0.1.0 h.0.1.1
  cookies-read (key, value) (k' ∷ ks) pre off cs k0 e at_pre h =
      let rest = cookies_text k' ks in
      let tail = value ++ (b';' ∷ b' ' ∷ rest) in
      let some_tail : 0 < length tail = omega (arith, length-append value (b';' ∷ b' ' ∷ rest)) in
      let front = pre ++ (key ++ (b'=' ∷ [])) in
      let joined = append_assoc key (b'=' ∷ value) (b';' ∷ b' ' ∷ rest) in
      let split = e ∙ ap (λ t. pre ++ t) joined in
      let split' = behind content pre key (b'=' ∷ []) tail split in
      let off' = off + length key + 1 in
      let at_front = length-behind pre key (b'=' ∷ []) off 1 at_pre refl in
      let next = emplace (x.to_lower key) value cs in
      ap (λ (t : List ℕ). (cookie_chars x content off t (at cs k0 off true false)).cookies) joined
      ∙ ap (λ (r : Reading). r.cookies)
          (name-read key tail pre off cs k0 off' split at_pre h.0.0.0 h.0.0.1 some_tail refl
            ∙ value-read value rest front off' cs (x.to_lower key) _ split' at_front h.0.1.0
                (texts_some k' ks) refl)
      ∙ cookies-read k' ks (front ++ (value ++ (b';' ∷ b' ' ∷ []))) _ next (x.to_lower key)
          (behind content front value (b';' ∷ b' ' ∷ []) rest split')
          (length-behind front value (b';' ∷ b' ' ∷ []) off' 2 at_front refl) h.1

-- Of a header that prints at least one cookie as its name, an equals sign and its value, with a
-- semicolon and a space between cookies, the constructor reads the cookies: each value under its
-- name as `ToLower` gives it, the first one where names are the same. Names and values are not
-- empty, and their chars are behind the space in the table and no equals signs or semicolons, so
-- that `Strip` is taken to leave them alone.
pub read_cookies-text :
    (x : Text)
    → ((w : List ℕ) → All IsPrinting w → x.strip w ≡ w)
    → (k : Cookie) (ks : List Cookie) → All IsCookie (k ∷ ks)
    → read_cookies x (cookies_text k ks) ≡ add_cookies x (k ∷ ks) []
unfolding read_cookies
read_cookies-text x strips k ks h =
    cookies-read x strips (cookies_text k ks) k ks [] 0 [] [] refl refl h
