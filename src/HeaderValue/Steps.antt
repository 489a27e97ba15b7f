-- ===== src/HeaderValue/Steps.antt =====
-- The loop of `ParseHeaderValue` on the pieces of a header value.
use cxx_library.Prelude.{
  ℕ, ◌+◌, ◌-◌, ◌<◌, ◌≡◌, refl, ap, ◌∙◌, Bool, true, false, ◌&&◌, ◌||◌, List, [], ◌∷◌, ◌++◌, ◌==◌,
  if◌then◌else◌, length, length-append, take, drop, All, arith, if_false,
}
use cxx_library.Request.Text.{Text}
use cxx_library.Request.Cookies.{Cookies, emplace}
use cxx_library.Request.Cookies.Steps.{IsCookieChar}
use cxx_library.HeaderValue.{Reading, end_param, skip_space, param_char, value_char, value_chars}

-- where the loop stands in the value itself, and in its parameters
abbrev pub at_dest : Reading
at_dest = record {
  dest = [];
  params = [];
  key = [];
  offset = 0;
  in_key = true;
  have_key = false;
  in_params = false;
}

abbrev pub at : List ℕ → Cookies → List ℕ → ℕ → Bool → Bool → Reading
at d ps key off b h = record {
  dest = d;
  params = ps;
  key = key;
  offset = off;
  in_key = b;
  have_key = h;
  in_params = true;
}

-- what the caller gets
abbrev pub outcome : Reading → List ℕ × Cookies
outcome r = (r.dest, r.params)

never : (a b : Bool) (m n : ℕ) → (if a && b && false then m else n) ≡ n
never true true m n = refl
never true false m n = refl
never false true m n = refl
never false false m n = refl

module _ (x : Text) (content : List ℕ) where
  pub chars-cons :
      (i c : ℕ) (rest : List ℕ) (r : Reading)
      → 0 < length rest
      → value_chars x content i (c ∷ rest) r
        ≡ value_chars x content (i + 1) rest (value_char x content false i c r)
  unfolding value_chars
  chars-cons i c [] r h = absurd (omega arith)
  chars-cons i c (d ∷ rest) r h = refl

  -- a char of the value itself
  dest-inner : (i c : ℕ) → IsCookieChar c → value_char x content false i c at_dest ≡ at_dest
  unfolding value_char
  dest-inner i c h = if_false _ _ h.2

  space-kept :
      (i c : ℕ) (d : List ℕ) (ps : Cookies) (k : List ℕ) (off : ℕ) (b : Bool)
      → skip_space x i c (at d ps k off b true) ≡ at d ps k off b true
  unfolding skip_space
  space-kept i c d ps k off true =
      ap (λ o. at d ps k o true true) (never (c == b' ') true (i + 1) off)
  space-kept i c d ps k off false =
      ap (λ o. at d ps k o false true) (never (c == b' ') false (i + 1) off)

  -- a char of a name or a value
  char-inner :
      (i c : ℕ) (last : Bool) (d : List ℕ) (ps : Cookies) (k : List ℕ) (off : ℕ) (b : Bool)
      → IsCookieChar c
      → value_char x content last i c (at d ps k off b true)
        ≡ (if last then end_param x content last i (at d ps k off b true) else at d ps k off b true)
  unfolding value_char param_char
  char-inner i c last d ps k off b h =
      ap (λ r. param_char x content last i c r) (space-kept i c d ps k off b)
      ∙ if_false _ _ h.1
      ∙ ap
          (λ (e : Bool).
            if e || last
            then end_param x content last i (at d ps k off b true)
            else at d ps k off b true)
          h.2

  pub dest-chars :
      (i : ℕ) (w rest : List ℕ) (j : ℕ)
      → All IsCookieChar w
      → 0 < length rest
      → j ≡ i + length w
      → value_chars x content i (w ++ rest) at_dest ≡ value_chars x content j rest at_dest
  dest-chars i [] rest j h some_rest e =
      let same : i ≡ j = omega arith in ap (λ n. value_chars x content n rest at_dest) same
  dest-chars i (c ∷ w) rest j h some_rest e =
      let some_more : 0 < length (w ++ rest) = omega (arith, length-append w rest) in
      chars-cons i c (w ++ rest) at_dest some_more
      ∙ ap (λ r. value_chars x content (i + 1) (w ++ rest) r) (dest-inner i c h.0)
      ∙ dest-chars (i + 1) w rest j h.1 some_rest (omega arith)

  pub chars-settled :
      (i : ℕ) (w rest : List ℕ) (d : List ℕ) (ps : Cookies) (k : List ℕ) (off j : ℕ) (b : Bool)
      → All IsCookieChar w
      → 0 < length rest
      → j ≡ i + length w
      → value_chars x content i (w ++ rest) (at d ps k off b true)
        ≡ value_chars x content j rest (at d ps k off b true)
  chars-settled i [] rest d ps k off j b h some_rest e =
      let same : i ≡ j = omega arith in
      ap (λ n. value_chars x content n rest (at d ps k off b true)) same
  chars-settled i (c ∷ w) rest d ps k off j b h some_rest e =
      let some_more : 0 < length (w ++ rest) = omega (arith, length-append w rest) in
      chars-cons i c (w ++ rest) (at d ps k off b true) some_more
      ∙ ap (λ r. value_chars x content (i + 1) (w ++ rest) r)
          (char-inner i c false d ps k off b h.0)
      ∙ chars-settled (i + 1) w rest d ps k off j b h.1 some_rest (omega arith)

  -- the last value, whose last char ends the header
  pub value-last :
      (i c : ℕ) (w : List ℕ) (d : List ℕ) (ps : Cookies) (k : List ℕ) (off n : ℕ)
      → All IsCookieChar (c ∷ w)
      → n ≡ i + length (c ∷ w) - off
      → outcome (value_chars x content i (c ∷ w) (at d ps k off false true))
        ≡ (d, emplace k (x.strip (take n (drop off content))) ps)
  unfolding value_chars end_param
  value-last i c [] d ps k off n h size =
      let same : i + 1 - off ≡ n = omega arith in
      ap outcome (char-inner i c true d ps k off false h.0)
      ∙ ap (λ m. (d, emplace k (x.strip (take m (drop off content))) ps)) same
  value-last i c (e ∷ w) d ps k off n h size =
      ap (λ r. outcome (value_chars x content (i + 1) (e ∷ w) r))
        (char-inner i c false d ps k off false h.0)
      ∙ value-last (i + 1) e w d ps k off n h.1 (omega arith)
