-- ===== src/Request/Round.antt =====
-- `Range` of http/request.cpp on a header that a client prints.
use cxx_library.Prelude.{
  ℕ, ◌^◌, ◌<◌, ◌≡◌, refl, ap, ◌∙◌, true, false, Option, none, some, List, [], ◌∷◌, ◌++◌,
  append_assoc, length, length-append, All, arith, lt→ltb,
}
use cxx_library.Prelude.Options.{◌>>=◌}
use cxx_library.Request.Text.{Text}
use cxx_library.Request.Range.{RangeSpec, Reading, has_bounds, read_chars, range}
use cxx_library.Request.Reads.{
  IsPlain, AreBounds, IsRange, opt_text, spec_text, specs_text, at, spec_of, IsNumber, chars-cons,
  chars-plain, end-number, end-open, dash-number, dash-last, dash-nothing, char-dash, char-comma,
  char-equals, last-number,
}

-- The header of a value that has a range.
abbrev pub header_text : Text → List ℕ → RangeSpec → List RangeSpec → List ℕ
header_text x unit spec specs = unit ++ (b'=' ∷ specs_text x spec specs)

some_middle : (xs : List ℕ) (c : ℕ) (ys : List ℕ) → 0 < length (xs ++ (c ∷ ys))
some_middle xs c ys = omega (arith, length-append xs (c ∷ ys))

start_fits : (s : ℕ) (e : Option ℕ) → AreBounds (some s) e → s < 2 ^ 64
start_fits s none h = h
start_fits s (some e) h = omega (arith, h.0, h.1)

bounds_hold : (s : Option ℕ) (e : ℕ) → AreBounds s (some e) → has_bounds s (some e) ≡ true
unfolding has_bounds
bounds_hold none e h = refl
bounds_hold (some s) e h = ground (arith, h.0)

end_fits : (s : Option ℕ) (e : ℕ) → AreBounds s (some e) → e < 2 ^ 64
end_fits none e h = h
end_fits (some s) e h = h.1

module _ (x : Text) (back : (n : ℕ) → n < 2 ^ 64 → x.from_string (x.to_string n) ≡ some n)
    (digits : (n : ℕ) → All IsPlain (x.to_string n) × (0 < length (x.to_string n))) where
  to_string-IsNumber : (n : ℕ) → n < 2 ^ 64 → IsNumber x (x.to_string n) n
  unfolding IsNumber
  to_string-IsNumber n h = (back n h, lt→ltb 0 (length (x.to_string n)) (digits n).1)

  start-text :
      (s e : Option ℕ) (tail : List ℕ) (u : List ℕ) (rs : List RangeSpec)
      → AreBounds s e
      → 0 < length tail
      → read_chars x (opt_text x.to_string s ++ (b'-' ∷ tail)) (at u rs [] none none)
        ≡ read_chars x tail (at u rs [] s none)
  start-text none e tail u rs h some_tail =
      chars-cons x b'-' tail (at u rs [] none none) some_tail
      ∙ ap (λ o. o >>= read_chars x tail)
          (char-dash x false (at u rs [] none none) ∙ dash-nothing x u rs)
  start-text (some s) e tail u rs h some_tail =
      let fits : s < 2 ^ 64 = start_fits s e h in
      chars-plain x (x.to_string s) (b'-' ∷ tail) u rs [] none none (digits s).0 (omega arith)
      ∙ chars-cons x b'-' tail (at u rs (x.to_string s) none none) some_tail
      ∙ ap (λ o. o >>= read_chars x tail)
          (char-dash x false (at u rs (x.to_string s) none none)
            ∙ dash-number x u rs (x.to_string s) s (to_string-IsNumber s fits))

  end-more :
      (s e : Option ℕ) (rest : List ℕ) (u : List ℕ) (rs : List RangeSpec)
      → AreBounds s e
      → 0 < length rest
      → read_chars x (opt_text x.to_string e ++ (b',' ∷ rest)) (at u rs [] s none)
        ≡ read_chars x rest (at u (rs ++ (spec_of s e ∷ [])) [] none none)
  end-more none none rest u rs h some_rest = elim h [ ]
  end-more (some s) none rest u rs h some_rest =
      chars-cons x b',' rest (at u rs [] (some s) none) some_rest
      ∙ ap (λ o. o >>= read_chars x rest)
          (char-comma x (at u rs [] (some s) none) ∙ end-open x u rs s)
  end-more s (some e) rest u rs h some_rest =
      let w = x.to_string e in
      chars-plain x w (b',' ∷ rest) u rs [] s none (digits e).0 (omega arith)
      ∙ chars-cons x b',' rest (at u rs w s none) some_rest
      ∙ ap (λ o. o >>= read_chars x rest)
          (char-comma x (at u rs w s none)
            ∙ end-number x u rs w s e (to_string-IsNumber e (end_fits s e h)) (bounds_hold s e h))

  spec-more :
      (s e : Option ℕ) (rest : List ℕ) (u : List ℕ) (rs : List RangeSpec)
      → AreBounds s e
      → 0 < length rest
      → read_chars x (spec_text x (spec_of s e) ++ (b',' ∷ rest)) (at u rs [] none none)
        ≡ read_chars x rest (at u (rs ++ (spec_of s e ∷ [])) [] none none)
  spec-more s e rest u rs h some_rest =
      let tail = opt_text x.to_string e ++ (b',' ∷ rest) in
      let some_tail = some_middle (opt_text x.to_string e) b',' rest in
      ap (λ v. read_chars x v (at u rs [] none none))
        (append_assoc (opt_text x.to_string s) (b'-' ∷ opt_text x.to_string e) (b',' ∷ rest))
      ∙ start-text s e tail u rs h some_tail
      ∙ end-more s e rest u rs h some_rest

  last-text :
      (w : List ℕ) (u : List ℕ) (rs : List RangeSpec) (s : Option ℕ) (n : ℕ)
      → All IsPlain w
      → 0 < length w
      → IsNumber x w n
      → has_bounds s (some n) ≡ true
      → read_chars x w (at u rs [] s none)
        ≡ some (at u (rs ++ (spec_of s (some n) ∷ [])) [] none none)
  last-text [] u rs s n plain some_w h valid = absurd (omega arith)
  last-text (c ∷ w) u rs s n plain some_w h valid = last-number x c w u rs [] s n plain h valid

  spec-last :
      (s e : Option ℕ) (u : List ℕ) (rs : List RangeSpec)
      → AreBounds s e
      → read_chars x (spec_text x (spec_of s e)) (at u rs [] none none)
        ≡ some (at u (rs ++ (spec_of s e ∷ [])) [] none none)
  unfolding read_chars
  spec-last none none u rs h = elim h [ ]
  spec-last (some s) none u rs h =
      chars-plain x (x.to_string s) (b'-' ∷ []) u rs [] none none (digits s).0 (omega arith)
      ∙ char-dash x true (at u rs (x.to_string s) none none)
      ∙ dash-last x u rs (x.to_string s) s (to_string-IsNumber s h)
  spec-last s (some e) u rs h =
      start-text s (some e) (x.to_string e) u rs h (digits e).1
      ∙ last-text (x.to_string e) u rs s e (digits e).0 (digits e).1
          (to_string-IsNumber e (end_fits s e h)) (bounds_hold s e h)

  specs-some : (spec : RangeSpec) (specs : List RangeSpec) → 0 < length (specs_text x spec specs)
  specs-some spec [] =
      some_middle (opt_text x.to_string spec.start) b'-' (opt_text x.to_string spec.end)
  specs-some spec (spec' ∷ specs) = some_middle (spec_text x spec) b',' (specs_text x spec' specs)

  specs-read :
      (spec : RangeSpec) (specs : List RangeSpec) (u : List ℕ) (rs : List RangeSpec)
      → All IsRange (spec ∷ specs)
      → read_chars x (specs_text x spec specs) (at u rs [] none none)
        ≡ some (at u (rs ++ (spec ∷ specs)) [] none none)
  specs-read spec [] u rs h = spec-last spec.start spec.end u rs h.0
  specs-read spec (spec' ∷ specs) u rs h =
      spec-more spec.start spec.end (specs_text x spec' specs) u rs h.0 (specs-some spec' specs)
      ∙ specs-read spec' specs u (rs ++ (spec ∷ [])) h.1
      ∙ ap (λ v. some (at u v [] none none)) (append_assoc rs (spec ∷ []) (spec' ∷ specs))

  -- Of a header with a unit and at least one range, printed as `s-e`, `s-` or `-n` between commas,
  -- `Range` gives back the unit and the ranges in their order. The unit has no space, comma, dash
  -- or equals sign; the bounds are below 2^64, and an end lies behind its start. Of the numbers'
  -- text it takes that they are read back as printed and that they are digits.
  pub range-specs :
      (unit : List ℕ) (spec : RangeSpec) (specs : List RangeSpec)
      → All IsPlain unit
      → All IsRange (spec ∷ specs)
      → range x (header_text x unit spec specs)
        ≡ some (record { unit = unit; ranges = spec ∷ specs })
  unfolding range
  range-specs unit spec specs plain h =
      let tail = specs_text x spec specs in
      let some_tail = specs-some spec specs in
      ap (λ (o : Option Reading). o >>= λ r. some r.out)
        (chars-plain x unit (b'=' ∷ tail) [] [] [] none none plain (omega arith)
          ∙ chars-cons x b'=' tail (at [] [] unit none none) some_tail
          ∙ ap (λ o. o >>= read_chars x tail) (char-equals x unit)
          ∙ specs-read spec specs unit [] h)
