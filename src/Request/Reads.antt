-- ===== src/Request/Reads.antt =====
-- The steps of `Range` of http/request.cpp on the pieces of a well-formed header.
use cxx_library.Prelude.{
  ℕ, ◌^◌, ◌<◌, ◌≡◌, refl, sym, ap, subst, ◌∙◌, Bool, true, false, ◌||◌, Option, none, some, List,
  [], ◌∷◌, ◌++◌, append-nil, append_assoc, ltb, ◌==◌, if◌then◌else◌, length, length-append, All,
  arith, if_true, if_false,
}
use cxx_library.Prelude.Options.{◌>>=◌}
use cxx_library.Request.Text.{Text}
use cxx_library.Request.Range.{
  RangeSpec, Reading, is_mark, keep_char, push_spec, read_unit, has_bounds, has_start, give_start,
  give_end, read_dash, read_end, read_char, read_chars,
}

-- a char of a unit or a number
abbrev pub IsPlain : ℕ → Type 0
IsPlain c = is_mark c ≡ false

-- The bounds that `Range` accepts.
abbrev pub AreBounds : Option ℕ → Option ℕ → Type 0
AreBounds none none = ⊥
AreBounds none (some e) = e < 2 ^ 64
AreBounds (some s) none = s < 2 ^ 64
AreBounds (some s) (some e) = (s < e) × (e < 2 ^ 64)

abbrev pub IsRange : RangeSpec → Type 0
IsRange spec = AreBounds spec.start spec.end

abbrev pub opt_text : (ℕ → List ℕ) → Option ℕ → List ℕ
opt_text show none = []
opt_text show (some n) = show n

-- The text of a range, of ranges and of the header.
abbrev pub spec_text : Text → RangeSpec → List ℕ
spec_text x spec = opt_text x.to_string spec.start ++ ((b'-' ∷ []) ++ opt_text x.to_string spec.end)

abbrev pub specs_text : Text → RangeSpec → List RangeSpec → List ℕ
specs_text x spec [] = spec_text x spec
specs_text x spec (spec' ∷ specs) = spec_text x spec ++ (b',' ∷ specs_text x spec' specs)

-- where the reader stands
abbrev pub at : List ℕ → List RangeSpec → List ℕ → Option ℕ → Option ℕ → Reading
at u rs t s e = record {
  out = record { unit = u; ranges = rs };
  tmp = t;
  spec = record { start = s; end = e };
}

abbrev pub spec_of : Option ℕ → Option ℕ → RangeSpec
spec_of s e = record { start = s; end = e }

module _ (x : Text) where
  pub chars-cons :
      (c : ℕ) (rest : List ℕ) (r : Reading)
      → 0 < length rest
      → read_chars x (c ∷ rest) r ≡ (read_char x false c r >>= read_chars x rest)
  unfolding read_chars
  chars-cons c [] r h = absurd (omega arith)
  chars-cons c (d ∷ rest) r h = refl

  keep-plain :
      (c : ℕ) (u : List ℕ) (rs : List RangeSpec) (t : List ℕ) (s e : Option ℕ)
      → IsPlain c
      → keep_char c (at u rs t s e) ≡ at u rs (t ++ (c ∷ [])) s e
  unfolding keep_char
  keep-plain c u rs t s e h = if_false _ _ h

  char-inner :
      (c : ℕ) (r : Reading) (last : Bool)
      → IsPlain c
      → read_char x last c r ≡ (if last then read_end x (keep_char c r) else some (keep_char c r))
  unfolding read_char is_mark
  char-inner c r last h =
      let no_eq : (c == b'=') ≡ false = ground (arith, h) in
      let no_dash : (c == b'-') ≡ false = ground (arith, h) in
      let no_comma : (c == b',') ≡ false = ground (arith, h) in
      if_false _ _ no_eq
      ∙ if_false _ _ no_dash
      ∙ ap (λ (b : Bool). if b || last then read_end x (keep_char c r) else some (keep_char c r))
          no_comma

  pub chars-plain :
      (w rest : List ℕ) (u : List ℕ) (rs : List RangeSpec) (t : List ℕ) (s e : Option ℕ)
      → All IsPlain w
      → 0 < length rest
      → read_chars x (w ++ rest) (at u rs t s e) ≡ read_chars x rest (at u rs (t ++ w) s e)
  chars-plain [] rest u rs t s e h some_rest =
      ap (λ v. read_chars x rest (at u rs v s e)) (sym (append-nil t))
  chars-plain (c ∷ w) rest u rs t s e h some_rest =
      let some_more : 0 < length (w ++ rest) = omega (arith, length-append w rest) in
      let kept = keep-plain c u rs t s e h.0 in
      chars-cons c (w ++ rest) (at u rs t s e) some_more
      ∙ ap (λ o. o >>= read_chars x (w ++ rest)) (char-inner c (at u rs t s e) false h.0)
      ∙ ap (λ r. read_chars x (w ++ rest) r) kept
      ∙ chars-plain w rest u rs (t ++ (c ∷ [])) s e h.1 some_rest
      ∙ ap (λ v. read_chars x rest (at u rs v s e)) (append_assoc t (c ∷ []) w)

  -- the text of a number
  unfoldable pub IsNumber : List ℕ → ℕ → Type 0
  IsNumber t n = (x.from_string t ≡ some n) × (ltb 0 (length t) ≡ true)

  pub end-number :
      (u : List ℕ) (rs : List RangeSpec) (t : List ℕ) (s : Option ℕ) (n : ℕ)
      → IsNumber t n
      → has_bounds s (some n) ≡ true
      → read_end x (at u rs t s none) ≡ some (at u (rs ++ (spec_of s (some n) ∷ [])) [] none none)
  unfolding read_end give_end push_spec IsNumber
  end-number u rs t s n h valid =
      ap
        (λ (o : Option Reading).
          o >>= λ v. if has_bounds v.spec.start v.spec.end then some (push_spec v) else none)
        (if_true _ _ h.1 ∙ ap (λ (o : Option ℕ). o >>= λ k. some (at u rs [] s (some k))) h.0)
      ∙ if_true _ _ valid

  pub end-open :
      (u : List ℕ) (rs : List RangeSpec) (n : ℕ)
      → read_end x (at u rs [] (some n) none)
        ≡ some (at u (rs ++ (spec_of (some n) none ∷ [])) [] none none)
  unfolding read_end give_end push_spec has_bounds
  end-open u rs n = refl

  given :
      (u : List ℕ) (rs : List RangeSpec) (t : List ℕ) (n : ℕ)
      → IsNumber t n
      → give_start x (at u rs t none none) ≡ some (at u rs [] (some n) none)
  unfolding give_start IsNumber
  given u rs t n h =
      if_true _ _ h.1 ∙ ap (λ (o : Option ℕ). o >>= λ k. some (at u rs [] (some k) none)) h.0

  -- a dash behind a number, with more to come
  pub dash-number :
      (u : List ℕ) (rs : List RangeSpec) (t : List ℕ) (n : ℕ)
      → IsNumber t n
      → read_dash x false (at u rs t none none) ≡ some (at u rs [] (some n) none)
  unfolding read_dash
  dash-number u rs t n h = ap (λ o. o >>= λ v. some v) (given u rs t n h)

  -- the same as the last char
  pub dash-last :
      (u : List ℕ) (rs : List RangeSpec) (t : List ℕ) (n : ℕ)
      → IsNumber t n
      → read_dash x true (at u rs t none none)
        ≡ some (at u (rs ++ (spec_of (some n) none ∷ [])) [] none none)
  unfolding read_dash push_spec has_start
  dash-last u rs t n h =
      ap
        (λ (o : Option Reading).
          o >>= λ v. if has_start v.spec.start then some (push_spec v) else none)
        (given u rs t n h)

  pub dash-nothing :
      (u : List ℕ) (rs : List RangeSpec)
      → read_dash x false (at u rs [] none none) ≡ some (at u rs [] none none)
  unfolding read_dash give_start
  dash-nothing u rs = refl

  pub char-dash : (last : Bool) (r : Reading) → read_char x last b'-' r ≡ read_dash x last r
  unfolding read_char keep_char is_mark
  char-dash last r = refl

  pub char-comma : (r : Reading) → read_char x false b',' r ≡ read_end x r
  unfolding read_char keep_char is_mark
  char-comma r = refl

  pub char-equals :
      (t : List ℕ) → read_char x false b'=' (at [] [] t none none) ≡ some (at t [] [] none none)
  unfolding read_char keep_char is_mark read_unit
  char-equals t = refl

  -- digits up to the end of the header
  pub last-number :
      (c : ℕ) (w : List ℕ) (u : List ℕ) (rs : List RangeSpec) (t : List ℕ) (s : Option ℕ) (n : ℕ)
      → All IsPlain (c ∷ w)
      → IsNumber (t ++ (c ∷ w)) n
      → has_bounds s (some n) ≡ true
      → read_chars x (c ∷ w) (at u rs t s none)
        ≡ some (at u (rs ++ (spec_of s (some n) ∷ [])) [] none none)
  unfolding read_chars
  last-number c [] u rs t s n plain h valid =
      char-inner c (at u rs t s none) true plain.0
      ∙ ap (λ r. read_end x r) (keep-plain c u rs t s none plain.0)
      ∙ end-number u rs (t ++ (c ∷ [])) s n h valid
  last-number c (d ∷ w) u rs t s n plain h valid =
      let moved = subst (λ v. IsNumber v n) (sym (append_assoc t (c ∷ []) (d ∷ w))) h in
      ap (λ o. o >>= read_chars x (d ∷ w)) (char-inner c (at u rs t s none) false plain.0)
      ∙ ap (λ r. read_chars x (d ∷ w) r) (keep-plain c u rs t s none plain.0)
      ∙ last-number d w u rs (t ++ (c ∷ [])) s n plain.1 moved valid
