-- ===== src/Request/Answers.antt =====
-- `TRequest::RespondFile` of http/request.cpp on the header of a client, by what its ranges name.
use cxx_library.Prelude.{
  ℕ, ◌+◌, ◌-◌, ◌%◌, ◌^◌, ◌<◌, ◌≤◌, ◌≡◌, sym, ap, ◌∙◌, true, false, Option, none, some, List, [],
  ◌∷◌, ◌++◌, map, append-nil, append_assoc, leb, length, All, arith, lt→ltb, if_true, if_false,
}
use cxx_library.Prelude.Options.{◌>>=◌}
use cxx_library.Request.Text.{Text}
use cxx_library.Request.Range.{RangeSpec, RangeHeaderValue}
use cxx_library.Request.Reply.{
  Body, wrapped_outside, Part, Response, bare_part, respond, wrap, end_of, is_past, bounds,
  content_type, content_range, byteranges, range_text, header, part_of, add_parts, respond_one,
  respond_ranges, respond_file,
}
use cxx_library.Request.Reads.{IsPlain, AreBounds, IsRange}
use cxx_library.Request.Round.{header_text, range-specs}
use cxx_library.Request.Slices.{IsInside, AreInside, slice_of, part-inside}

inside-AreBounds : (size : ℕ) (s e : Option ℕ) → size < 2 ^ 64 → AreInside size s e → AreBounds s e
inside-AreBounds size none none fits h = h
inside-AreBounds size none (some e) fits h = omega (arith, h.1)
inside-AreBounds size (some s) none fits h = omega (arith, h)
inside-AreBounds size (some s) (some e) fits h = (h.0, omega (arith, h.1))

inside-ranges :
    (size : ℕ) (specs : List RangeSpec)
    → size < 2 ^ 64
    → All (IsInside size) specs
    → All IsRange specs
inside-ranges size [] fits h = tt
inside-ranges size (spec ∷ specs) fits h =
    (inside-AreBounds size spec.start spec.end fits h.0, inside-ranges size specs fits h.1)

-- Bounds with an end behind the last of `size` bytes.
abbrev pub ArePast : ℕ → Option ℕ → Option ℕ → Type 0
ArePast size none none = ⊥
ArePast size none (some e) = size < e
ArePast size (some s) none = ⊥
ArePast size (some s) (some e) = (size ≤ e) × (e + 1 < 2 ^ 64)

abbrev pub IsPast : ℕ → RangeSpec → Type 0
IsPast size spec = ArePast size spec.start spec.end

past_end : (size : ℕ) (s e : Option ℕ) → ArePast size s e → is_past size (end_of s e) ≡ true
unfolding is_past end_of
past_end size none none h = elim h [ ]
past_end size none (some e) h = lt→ltb size e h
past_end size (some s) none h = elim h [ ]
past_end size (some s) (some e) h = lt→ltb size ((e + 1) % 2 ^ 64) (omega (arith, h.0, h.1))

module _ (x : Text) (unit ctype content : List ℕ) where
  -- The response to ranges that all name bytes of the content.
  abbrev pub answer : RangeSpec → List RangeSpec → Response
  answer spec [] = record (respond 206) { main = slice_of x unit ctype content spec }
  answer spec (spec' ∷ specs) = record (respond 206) {
    main = header x content_type byteranges bare_part;
    parts = map (slice_of x unit ctype content) (spec ∷ spec' ∷ specs);
  }

  parts-inside :
      (specs rest : List RangeSpec) (r : Response)
      → length content < 2 ^ 64
      → All (IsInside (length content)) specs
      → add_parts x unit ctype (length content) content (specs ++ rest) r
        ≡ add_parts x unit ctype
            (length content)
            content
            rest
            (record r { parts = r.parts ++ map (slice_of x unit ctype content) specs })
  unfolding add_parts
  parts-inside [] rest r fits h =
      ap (λ v. add_parts x unit ctype (length content) content rest (record r { parts = v }))
        (sym (append-nil r.parts))
  parts-inside (spec ∷ specs) rest r fits h =
      let made = slice_of x unit ctype content spec in
      ap
        (λ (o : Option (Option Part)). o >>= λ m. elim m [
          | none ↦ some (respond 416)
          | some p ↦
              add_parts x unit ctype (length content) content (specs ++ rest)
                (record r { parts = r.parts ++ (p ∷ []) })
        ])
        (part-inside x unit ctype content spec fits h.0)
      ∙ parts-inside specs rest (record r { parts = r.parts ++ (made ∷ []) }) fits h.1
      ∙ ap (λ v. add_parts x unit ctype (length content) content rest (record r { parts = v }))
          (append_assoc r.parts (made ∷ []) (map (slice_of x unit ctype content) specs))

  ranges-inside :
      (spec : RangeSpec) (specs : List RangeSpec)
      → length content < 2 ^ 64
      → All (IsInside (length content)) (spec ∷ specs)
      → respond_ranges x unit ctype (length content) content (spec ∷ specs)
        ≡ some (answer spec specs)
  unfolding respond_ranges respond_one add_parts
  ranges-inside spec [] fits h =
      ap
        (λ (o : Option (Option Part)). o >>= λ m. elim m [
          | none ↦ some (respond 416)
          | some p ↦ some (record (respond 206) { main = p })
        ])
        (part-inside x unit ctype content spec fits h.0)
  ranges-inside spec (spec' ∷ specs) fits h =
      ap (λ v. add_parts x unit ctype (length content) content v (respond 206))
        (sym (append-nil (spec ∷ spec' ∷ specs)))
      ∙ parts-inside (spec ∷ spec' ∷ specs) [] (respond 206) fits h

  part-past :
      (spec : RangeSpec)
      → IsPast (length content) spec
      → part_of x unit ctype (length content) content spec bare_part ≡ some none
  unfolding part_of
  part-past spec h = if_true _ _ (past_end (length content) spec.start spec.end h)

  parts-past :
      (before : List RangeSpec) (spec : RangeSpec) (rest : List RangeSpec) (r : Response)
      → length content < 2 ^ 64
      → All (IsInside (length content)) before
      → IsPast (length content) spec
      → add_parts x unit ctype (length content) content (before ++ (spec ∷ rest)) r
        ≡ some (respond 416)
  unfolding add_parts
  parts-past before spec rest r fits h past =
      let made = map (slice_of x unit ctype content) before in
      parts-inside before (spec ∷ rest) r fits h
      ∙ ap
          (λ (o : Option (Option Part)). o >>= λ m. elim m [
            | none ↦ some (respond 416)
            | some p ↦
                add_parts x unit ctype (length content) content rest
                  (record r { parts = (r.parts ++ made) ++ (p ∷ []) })
          ])
          (part-past spec past)

  ranges-past :
      (before : List RangeSpec) (spec : RangeSpec) (rest : List RangeSpec)
      → length content < 2 ^ 64
      → All (IsInside (length content)) before
      → IsPast (length content) spec
      → respond_ranges x unit ctype (length content) content (before ++ (spec ∷ rest))
        ≡ some (respond 416)
  unfolding respond_ranges respond_one
  ranges-past [] spec [] fits h past =
      ap
        (λ (o : Option (Option Part)). o >>= λ m. elim m [
          | none ↦ some (respond 416)
          | some p ↦ some (record (respond 206) { main = p })
        ])
        (part-past spec past)
  ranges-past [] spec (spec' ∷ rest) fits h past =
      parts-past [] spec (spec' ∷ rest) (respond 206) fits h past
  ranges-past (b ∷ []) spec rest fits h past =
      parts-past (b ∷ []) spec rest (respond 206) fits h past
  ranges-past (b ∷ b' ∷ bs) spec rest fits h past =
      parts-past (b ∷ b' ∷ bs) spec rest (respond 206) fits h past

  -- The part for an open range that starts behind the content: the number of its bytes has wrapped
  -- around, and they do not lie in the content.
  abbrev pub behind_part : ℕ → Part
  behind_part s =
      record (header x content_range
        (unit
          ++ (b' ' ∷ [])
          ++ x.to_string s
          ++ (b'-' ∷ [])
          ++ x.to_string ((length content + 2 ^ 64 - 1) % 2 ^ 64)
          ++ (b'/' ∷ [])
          ++ x.to_string (length content))
        (header x content_type ctype bare_part)) {
          body = wrapped_outside s (length content + 2 ^ 64 - s);
        }

  -- The response to such a range and others that name bytes of the content.
  abbrev pub answer_behind : ℕ → List RangeSpec → Response
  answer_behind s [] = record (respond 206) { main = behind_part s }
  answer_behind s (spec ∷ specs) = record (respond 206) {
    main = header x content_type byteranges bare_part;
    parts = behind_part s ∷ map (slice_of x unit ctype content) (spec ∷ specs);
  }

  wrap-behind :
      (s : ℕ) (p : Part)
      → length content < s
      → s < 2 ^ 64
      → wrap s ((length content + 2 ^ 64 - s) % 2 ^ 64) content p
        ≡ record p { body = wrapped_outside s (length content + 2 ^ 64 - s) }
  unfolding wrap
  wrap-behind s p h fits =
      let outside : leb (s + (length content + 2 ^ 64 - s) % 2 ^ 64) (length content) ≡ false =
        ground arith in
      let count : (length content + 2 ^ 64 - s) % 2 ^ 64 ≡ length content + 2 ^ 64 - s =
        omega arith in
      ap (λ (y : Body). record p { body = y })
        (if_false _ _ outside ∙ ap (λ n. wrapped_outside s n) count)

  part-behind :
      (s : ℕ)
      → length content < s
      → s < 2 ^ 64
      → part_of x unit ctype
          (length content)
          content
          (record { start = some s; end = none })
          bare_part
        ≡ some (some (behind_part s))
  unfolding part_of is_past end_of bounds range_text
  part-behind s h fits =
      let n = (length content + 2 ^ 64 - s) % 2 ^ 64 in
      let last : (s + n + 2 ^ 64 - 1) % 2 ^ 64 ≡ (length content + 2 ^ 64 - 1) % 2 ^ 64 =
        omega arith in
      ap (λ (made : Part). some (some made))
        (wrap-behind s
            (header x content_range (range_text x unit s n (length content))
              (header x content_type ctype bare_part))
            h fits
          ∙ ap
              (λ k.
                record (header x content_range
                  (unit
                    ++ (b' ' ∷ [])
                    ++ x.to_string s
                    ++ (b'-' ∷ [])
                    ++ x.to_string k
                    ++ (b'/' ∷ [])
                    ++ x.to_string (length content))
                  (header x content_type ctype bare_part)) {
                    body = wrapped_outside s (length content + 2 ^ 64 - s);
                  })
              last)

  ranges-behind :
      (s : ℕ) (specs : List RangeSpec)
      → length content < s
      → s < 2 ^ 64
      → All (IsInside (length content)) specs
      → respond_ranges x unit ctype
          (length content)
          content
          (record { start = some s; end = none } ∷ specs)
        ≡ some (answer_behind s specs)
  unfolding respond_ranges respond_one add_parts
  ranges-behind s [] h fits inside =
      ap
        (λ (o : Option (Option Part)). o >>= λ m. elim m [
          | none ↦ some (respond 416)
          | some p ↦ some (record (respond 206) { main = p })
        ])
        (part-behind s h fits)
  ranges-behind s (spec ∷ specs) h fits inside =
      let r = record (respond 206) { parts = behind_part s ∷ [] } in
      ap
        (λ (o : Option (Option Part)). o >>= λ m. elim m [
          | none ↦ some (respond 416)
          | some p ↦
              add_parts x unit ctype (length content) content (spec ∷ specs)
                (record (respond 206) { parts = p ∷ [] })
        ])
        (part-behind s h fits)
      ∙ ap (λ v. add_parts x unit ctype (length content) content v r)
          (sym (append-nil (spec ∷ specs)))
      ∙ parts-inside (spec ∷ specs) [] r (omega arith) inside

module _ (x : Text) (back : (n : ℕ) → n < 2 ^ 64 → x.from_string (x.to_string n) ≡ some n)
    (digits : (n : ℕ) → All IsPlain (x.to_string n) × (0 < length (x.to_string n)))
    (unit ctype content : List ℕ) (plain : All IsPlain unit) (small : length content < 2 ^ 64) where
  respond-ranges :
      (spec : RangeSpec) (specs : List RangeSpec)
      → All IsRange (spec ∷ specs)
      → respond_file x false (header_text x unit spec specs) ctype (length content) content
        ≡ respond_ranges x unit ctype (length content) content (spec ∷ specs)
  unfolding respond_file
  respond-ranges spec specs h =
      ap
        (λ (o : Option RangeHeaderValue).
          o >>= λ value. respond_ranges x value.unit ctype (length content) content value.ranges)
        (range-specs x back digits unit spec specs plain h)

  -- A request that is no `HEAD` and whose range header prints at least one range is answered with
  -- status 206, when each range names at least one of the content's bytes and none behind them: one
  -- range by its bytes, with the content type and a `Content-Range` of the unit, the first and the
  -- last byte and the size; more by `multipart/byteranges` with one such part for each range, in
  -- the order of the header. The content has fewer than 2^64 bytes, the unit has no space, comma,
  -- dash or equals sign, and numbers are read back as printed and are digits.
  pub respond_file-inside :
      (spec : RangeSpec) (specs : List RangeSpec)
      → All (IsInside (length content)) (spec ∷ specs)
      → respond_file x false (header_text x unit spec specs) ctype (length content) content
        ≡ some (answer x unit ctype content spec specs)
  respond_file-inside spec specs h =
      respond-ranges spec specs (inside-ranges (length content) (spec ∷ specs) small h)
      ∙ ranges-inside x unit ctype content spec specs small h

  -- The answer is a bare 416 when one of the ranges ends behind the content, with an end below
  -- 2^64 - 1, and the ranges before it name bytes of the content; the ranges behind it only have
  -- to be well formed. The content, the unit and the numbers are as above.
  pub respond_file-past :
      (spec : RangeSpec) (specs before : List RangeSpec) (bad : RangeSpec) (rest : List RangeSpec)
      → spec ∷ specs ≡ before ++ (bad ∷ rest)
      → All IsRange (spec ∷ specs)
      → All (IsInside (length content)) before
      → IsPast (length content) bad
      → respond_file x false (header_text x unit spec specs) ctype (length content) content
        ≡ some (respond 416)
  respond_file-past spec specs before bad rest split h inside past =
      respond-ranges spec specs h
      ∙ ap (λ v. respond_ranges x unit ctype (length content) content v) split
      ∙ ranges-past x unit ctype content before bad rest small inside past

  -- A request that is no `HEAD` and whose range header starts with an open range `s-`, the content
  -- smaller than s and s below 2^64, is answered with status 206 and not with 416: by a part whose
  -- body is `Wrap` of size + 2^64 - s bytes from offset s on, which are no bytes of the content, with
  -- a `Content-Range` of s, size - 1 counted in 64 bits, and size. Other ranges behind that one name
  -- bytes of the content, and their parts follow, in `multipart/byteranges`. The content, the unit
  -- and the numbers are as above.
  pub respond_file-behind :
      (s : ℕ) (specs : List RangeSpec)
      → length content < s
      → s < 2 ^ 64
      → All (IsInside (length content)) specs
      → respond_file x false
          (header_text x unit (record { start = some s; end = none }) specs)
          ctype
          (length content)
          content
        ≡ some (answer_behind x unit ctype content s specs)
  respond_file-behind s specs h fits inside =
      respond-ranges (record { start = some s; end = none }) specs
        (fits, inside-ranges (length content) specs small inside)
      ∙ ranges-behind x unit ctype content s specs h fits inside
