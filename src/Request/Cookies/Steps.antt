-- ===== src/Request/Cookies/Steps.antt =====
-- The loop over cookies on the pieces of a header.
use cxx_library.Prelude.{
  ℕ, ◌+◌, ◌-◌, ◌<◌, ◌≡◌, refl, ap, ◌∙◌, Bool, true, false, not, ◌&&◌, ◌||◌, List, [], ◌∷◌, ◌++◌,
  ◌==◌, if◌then◌else◌, length, length-append, take, drop, All, arith, if_false,
}
use cxx_library.Request.Text.{Text}
use cxx_library.Request.Cookies.{
  Cookies, emplace, Reading, is_skipped, end_key, end_value, cookie_char, cookie_chars,
}

-- a char of a cookie's name or value
abbrev pub IsCookieChar : ℕ → Type 0
IsCookieChar c = (b' ' < c) × ((c == b'=') ≡ false) × ((c == b';') ≡ false)

abbrev pub IsPrinting : ℕ → Type 0
IsPrinting c = b' ' < c

abbrev pub at : Cookies → List ℕ → ℕ → Bool → Bool → Reading
at ks key off b h = record { cookies = ks; key = key; offset = off; in_key = b; have_key = h }

pub cookie-IsPrinting : (w : List ℕ) → All IsCookieChar w → All IsPrinting w
cookie-IsPrinting [] h = tt
cookie-IsPrinting (c ∷ w) h = (h.0.0, cookie-IsPrinting w h.1)

module _ (x : Text) (content : List ℕ) where
  pub chars-cons :
      (i c : ℕ) (rest : List ℕ) (r : Reading)
      → 0 < length rest
      → cookie_chars x content i (c ∷ rest) r
        ≡ cookie_chars x content (i + 1) rest (cookie_char x content false i c r)
  unfolding cookie_chars
  chars-cons i c [] r h = absurd (omega arith)
  chars-cons i c (d ∷ rest) r h = refl

  not-skipped : (c : ℕ) (r : Reading) → IsCookieChar c → is_skipped c r ≡ false
  unfolding is_skipped
  not-skipped c r h =
      let no_space : (c == b' ') ≡ false = ground (arith, h.0) in
      ap (λ b. b && r.in_key && not r.have_key) no_space

  char-inner :
      (i c : ℕ) (last : Bool) (r : Reading)
      → IsCookieChar c
      → cookie_char x content last i c r ≡ (
          if last
          then end_value x content last i c r
          else record r { have_key = if r.in_key then true else r.have_key })
  unfolding cookie_char
  char-inner i c last r h =
      if_false _ _ (not-skipped c r h)
      ∙ if_false _ _ h.1
      ∙ ap
          (λ (b : Bool).
            if b || last
            then end_value x content last i c r
            else record r { have_key = if r.in_key then true else r.have_key })
          h.2

  -- chars that change nothing
  pub chars-settled :
      (i : ℕ) (w rest : List ℕ) (ks : Cookies) (k : List ℕ) (off j : ℕ) (b have : Bool)
      → All IsCookieChar w
      → 0 < length rest
      → j ≡ i + length w
      → (if b then true else have) ≡ have
      → cookie_chars x content i (w ++ rest) (at ks k off b have)
        ≡ cookie_chars x content j rest (at ks k off b have)
  chars-settled i [] rest ks k off j b have h some_rest e settled =
      let same : i ≡ j = omega arith in
      ap (λ n. cookie_chars x content n rest (at ks k off b have)) same
  chars-settled i (c ∷ w) rest ks k off j b have h some_rest e settled =
      let some_more : 0 < length (w ++ rest) = omega (arith, length-append w rest) in
      chars-cons i c (w ++ rest) (at ks k off b have) some_more
      ∙ ap (λ r. cookie_chars x content (i + 1) (w ++ rest) r)
          (char-inner i c false (at ks k off b have) h.0 ∙ ap (λ v. at ks k off b v) settled)
      ∙ chars-settled (i + 1) w rest ks k off j b have h.1 some_rest (omega arith) settled

  -- the chars of a name that is not empty
  pub chars-key :
      (i : ℕ) (w rest : List ℕ) (ks : Cookies) (k : List ℕ) (off j : ℕ)
      → All IsCookieChar w
      → 0 < length w
      → 0 < length rest
      → j ≡ i + length w
      → cookie_chars x content i (w ++ rest) (at ks k off true false)
        ≡ cookie_chars x content j rest (at ks k off true true)
  chars-key i [] rest ks k off j h some_w some_rest e = absurd (omega arith)
  chars-key i (c ∷ w) rest ks k off j h some_w some_rest e =
      let some_more : 0 < length (w ++ rest) = omega (arith, length-append w rest) in
      chars-cons i c (w ++ rest) (at ks k off true false) some_more
      ∙ ap (λ r. cookie_chars x content (i + 1) (w ++ rest) r)
          (char-inner i c false (at ks k off true false) h.0)
      ∙ chars-settled (i + 1) w rest ks k off j true true h.1 some_rest (omega arith) refl

  -- the last value, whose last char ends the header
  pub value-last :
      (i c : ℕ) (w : List ℕ) (ks : Cookies) (k : List ℕ) (off n : ℕ)
      → All IsCookieChar (c ∷ w)
      → n ≡ i + length (c ∷ w) - off
      → (cookie_chars x content i (c ∷ w) (at ks k off false true)).cookies
        ≡ emplace k (x.strip (take n (drop off content))) ks
  unfolding cookie_chars end_value
  value-last i c [] ks k off n h size =
      let same : i + 1 - off ≡ n = omega arith in
      ap (λ (r : Reading). r.cookies) (char-inner i c true (at ks k off false true) h.0)
      ∙ ap
          (λ (b : Bool).
            emplace k (x.strip (take (i + (if not b then 1 else 0) - off) (drop off content))) ks)
          h.0.2
      ∙ ap (λ m. emplace k (x.strip (take m (drop off content))) ks) same
  value-last i c (d ∷ w) ks k off n h size =
      ap (λ r. (cookie_chars x content (i + 1) (d ∷ w) r).cookies)
        (char-inner i c false (at ks k off false true) h.0)
      ∙ value-last (i + 1) d w ks k off n h.1 (omega arith)

  pub char-equals :
      (i : ℕ) (ks : Cookies) (k : List ℕ) (off : ℕ)
      → cookie_char x content false i b'=' (at ks k off true true)
        ≡ at ks (x.to_lower (x.strip (take (i - off) (drop off content)))) (i + 1) false true
  unfolding cookie_char is_skipped end_key
  char-equals i ks k off = refl

  pub char-semicolon :
      (i : ℕ) (ks : Cookies) (k : List ℕ) (off : ℕ)
      → cookie_char x content false i b';' (at ks k off false true)
        ≡ at (emplace k (x.strip (take (i + 0 - off) (drop off content))) ks) k (i + 1) true false
  unfolding cookie_char is_skipped end_value
  char-semicolon i ks k off = refl

  pub char-space :
      (i : ℕ) (ks : Cookies) (k : List ℕ) (off : ℕ)
      → cookie_char x content false i b' ' (at ks k off true false) ≡ at ks k (i + 1) true false
  unfolding cookie_char is_skipped
  char-space i ks k off = refl
