-- ===== src/Request/Slices.antt =====
-- `TRequest::RespondFile` of http/request.cpp against the slices that the ranges name.
use cxx_library.Prelude.{
  ℕ, ◌+◌, ◌-◌, ◌%◌, ◌^◌, ◌<◌, ◌≤◌, ◌≡◌, refl, ap, ◌∙◌, true, false, Option, none, some, List, [],
  ◌∷◌, ◌++◌, leb, length, take, drop, arith, le→ltb, if_true, if_false,
}
use cxx_library.Prelude.Options.{◌>>=◌}
use cxx_library.Request.Text.{Text}
use cxx_library.Request.Range.{RangeSpec}
use cxx_library.Request.Reply.{
  Body, wrapped, Part, bare_part, wrap, end_of, is_past, bounds, content_type, content_range,
  header, range_text, part_of,
}

-- Bounds that name some of `size` bytes.
abbrev pub AreInside : ℕ → Option ℕ → Option ℕ → Type 0
AreInside size none none = ⊥
AreInside size none (some e) = (0 < e) × (e ≤ size)
AreInside size (some s) none = s < size
AreInside size (some s) (some e) = (s < e) × (e < size)

abbrev pub IsInside : ℕ → RangeSpec → Type 0
IsInside size spec = AreInside size spec.start spec.end

-- The first byte and the number of bytes that bounds name.
abbrev pub first_byte : ℕ → Option ℕ → Option ℕ → ℕ
first_byte size (some s) e = s
first_byte size none none = 0
first_byte size none (some e) = size - e

abbrev pub byte_count : ℕ → Option ℕ → Option ℕ → ℕ
byte_count size (some s) (some e) = e + 1 - s
byte_count size (some s) none = size - s
byte_count size none (some e) = e
byte_count size none none = size

not_past :
    (size : ℕ) (s e : Option ℕ)
    → size < 2 ^ 64
    → AreInside size s e
    → is_past size (end_of s e) ≡ false
unfolding is_past end_of
not_past size none none fits h = refl
not_past size (some s) none fits h = refl
not_past size none (some e) fits h = le→ltb size e h.1
not_past size (some s) (some e) fits h = le→ltb size ((e + 1) % 2 ^ 64) (omega (arith, h.1))

inside_bounds :
    (size : ℕ) (s e : Option ℕ)
    → size < 2 ^ 64
    → AreInside size s e
    → bounds size s (end_of s e) ≡ some (first_byte size s e, byte_count size s e)
unfolding bounds end_of
inside_bounds size none none fits h = elim h [ ]
inside_bounds size (some s) none fits h =
    let count : (size + 2 ^ 64 - s) % 2 ^ 64 ≡ size - s = omega arith in ap (λ n. some (s, n)) count
inside_bounds size none (some e) fits h =
    let from : (size + 2 ^ 64 - e) % 2 ^ 64 ≡ size - e = omega (arith, h.1) in
    ap (λ n. some (n, e)) from
inside_bounds size (some s) (some e) fits h =
    let count : ((e + 1) % 2 ^ 64 + 2 ^ 64 - s) % 2 ^ 64 ≡ e + 1 - s = omega (arith, h.0, h.1) in
    ap (λ n. some (s, n)) count

inside_fits :
    (size : ℕ) (s e : Option ℕ)
    → AreInside size s e
    → (0 < byte_count size s e) × (first_byte size s e + byte_count size s e ≤ size)
inside_fits size none none h = elim h [ ]
inside_fits size (some s) none h = (omega arith, omega arith)
inside_fits size none (some e) h = (h.0, omega (arith, h.1))
inside_fits size (some s) (some e) h = (omega (arith, h.0), omega (arith, h.0, h.1))

module _ (x : Text) (unit ctype content : List ℕ) where
  -- `unit from-last/size`
  abbrev pub slice_text : ℕ → ℕ → List ℕ
  slice_text from n =
      unit
      ++ (b' ' ∷ [])
      ++ x.to_string from
      ++ (b'-' ∷ [])
      ++ x.to_string (from + n - 1)
      ++ (b'/' ∷ [])
      ++ x.to_string (length content)

  -- The part with the bytes `from` to `from + n - 1`.
  abbrev slice : ℕ → ℕ → Part
  slice from n =
      record (header x content_range (slice_text from n) (header x content_type ctype bare_part)) {
        body = wrapped (take n (drop from content));
      }

  abbrev pub slice_of : RangeSpec → Part
  slice_of spec =
      slice (first_byte (length content) spec.start spec.end)
        (byte_count (length content) spec.start spec.end)

  wrap-slice :
      (from n : ℕ) (p : Part)
      → from + n ≤ length content
      → wrap from n content p ≡ record p { body = wrapped (take n (drop from content)) }
  unfolding wrap
  wrap-slice from n p h =
      let inside : leb (from + n) (length content) ≡ true = ground arith in
      ap (λ (y : Body). record p { body = y }) (if_true _ _ inside)

  range-text :
      (from n : ℕ)
      → 0 < n
      → from + n < 2 ^ 64
      → range_text x unit from n (length content) ≡ slice_text from n
  unfolding range_text
  range-text from n some_n fits =
      let last : (from + n + 2 ^ 64 - 1) % 2 ^ 64 ≡ from + n - 1 = omega arith in
      ap
        (λ k.
          unit
          ++ (b' ' ∷ [])
          ++ x.to_string from
          ++ (b'-' ∷ [])
          ++ x.to_string k
          ++ (b'/' ∷ [])
          ++ x.to_string (length content))
        last

  slice-made :
      (from n : ℕ)
      → 0 < n
      → from + n ≤ length content
      → length content < 2 ^ 64
      → wrap from n content (
          header x content_range
            (range_text x unit from n (length content))
            (header x content_type ctype bare_part))
        ≡ slice from n
  slice-made from n some_n inside fits =
      wrap-slice from n _ inside
      ∙ ap
          (λ t. record (header x content_range t (header x content_type ctype bare_part)) {
            body = wrapped (take n (drop from content));
          })
          (range-text from n some_n (omega arith))

  pub part-inside :
      (spec : RangeSpec)
      → length content < 2 ^ 64
      → IsInside (length content) spec
      → part_of x unit ctype (length content) content spec bare_part ≡ some (some (slice_of spec))
  unfolding part_of
  part-inside spec fits h =
      let room = inside_fits (length content) spec.start spec.end h in
      if_false _ _ (not_past (length content) spec.start spec.end fits h)
      ∙ ap
          (λ (o : Option (ℕ × ℕ)). o >>= λ b. some (
            some (
              wrap b.0 b.1 content (
                header x content_range (range_text x unit b.0 b.1 (length content))
                  (header x content_type ctype bare_part)))))
          (inside_bounds (length content) spec.start spec.end fits h)
      ∙ ap (λ (made : Part). some (some made)) (slice-made _ _ room.0 room.1 fits)
