-- ===== src/HttpLike/Head.antt =====
-- The end of the headers in httplike/parser/parser.cpp: what `ParseLine` makes of the request so far.
use cxx_library.Prelude.{
  ℕ, ◌<◌, ◌≡◌, ◌⊎◌, inl, inr, refl, sym, ap, ◌∙◌, Bool, true, false, Option, none, some, List, [],
  ◌∷◌, ◌++◌, arith, ltb, ◌||◌, if◌then◌else◌, ◌≤◌, ◌-◌, length, drop, take_all, All, if_true,
  if_false, Bool-cases, lt→ltb, le→ltb,
}
use cxx_library.Blob.{BlobOps}
use cxx_library.HttpLike.Kit.{Kit}
use cxx_library.HttpLike.State.{
  ParsedData, Headers, find_header, ok, ◌>>=◌, State, flush, flush_request, emit, reset, body_of,
}
use cxx_library.HttpLike.Line.{
  content_length_key, split_lines, read_headers, read_request, name_first, set_headers, give_length,
  announce, enter_content, set_length, leave_headers, finish_headers,
}
use cxx_library.HttpLike.Text.{IsText, join, split_lines-join, read_headers-blank}
use cxx_library.HttpLike.Steps.{heading}

module _ (k : Kit) (o : BlobOps) where
  open k use {Disk, bytes, strip, atoi}

  -- what headers say of the length of the content
  unfoldable pub Announces : Headers → ℕ → Type 0
  Announces hs n =
      ((find_header content_length_key hs ≡ none) × (n ≡ 0))
      ⊎ ((v : List ℕ) × (vs : List (List ℕ)) × (find_header content_length_key hs ≡ some (v ∷ vs))
          × (atoi v ≡ n))

  -- a parser that has read the headers of a message with `n` bytes of content, `cl` of them ahead
  unfoldable pub loaded :
      Option (List ℕ)
      → Headers
      → Disk
      → Bool
      → ℕ
      → ℕ
      → ℕ
      → List ParsedData
      → o.Blob
      → ℕ
      → Bool
      → State k o
  loaded fl hs d inside n cl eff ps b p first = record {
    first_line = fl;
    headers = hs;
    request = d;
    in_content = inside;
    content_length = cl;
    original_length = n;
    parsed = ps;
    infer_length = false;
    chunked = false;
    no_first_line = false;
    copy = true;
    stream = true;
    effective = eff;
    buf = b;
    processed = p;
    is_first = first;
  }

  read_request-heading :
      (l : List ℕ) (ls : List (List ℕ)) (hs : Headers) (d : Disk) (eff : ℕ) (ps : List ParsedData)
      (b : o.Blob) (p : ℕ) (first : Bool)
      → read_headers k o ls ([], false) ≡ (hs, false)
      → read_request k o (l ∷ ls ++ ((13 ∷ []) ∷ [])) (heading k o d eff ps b p first)
        ≡ loaded (some (strip l)) hs d false 0 0 eff ps b p first
  unfolding read_request name_first set_headers heading loaded
  read_request-heading l ls hs d eff ps b p first h =
      ap
        (λ (t : Headers × Bool).
          set_headers k o t
            (name_first k o (l ∷ ls ++ ((13 ∷ []) ∷ [])) (heading k o d eff ps b p first)))
        (read_headers-blank k o ls ([], false) ∙ h)

  announce-loaded :
      (ds : ℕ) (fl : Option (List ℕ)) (hs : Headers) (n : ℕ) (d : Disk) (eff : ℕ)
      (ps : List ParsedData) (b : o.Blob) (p : ℕ) (first : Bool)
      → Announces hs n
      → announce k o ds
          (find_header content_length_key hs)
          (loaded fl hs d false 0 0 eff ps b p first)
        ≡ ok (loaded fl hs d false n n eff ps b p first)
  unfolding announce give_length loaded Announces
  announce-loaded ds fl hs n d eff ps b p first (inl (e, z)) =
      ap (λ t. announce k o ds t (loaded fl hs d false 0 0 eff ps b p first)) e
      ∙ ap (λ t. ok (loaded fl hs d false t t eff ps b p first)) (sym z)
  announce-loaded ds fl hs n d eff ps b p first (inr (v, vs, e, z)) =
      ap (λ t. announce k o ds t (loaded fl hs d false 0 0 eff ps b p first)) e
      ∙ ap (λ t. ok (loaded fl hs d false t t eff ps b p first)) z

  pub set_length-loaded :
      (ds : ℕ) (fl : Option (List ℕ)) (hs : Headers) (n : ℕ) (d : Disk) (eff : ℕ)
      (ps : List ParsedData) (b : o.Blob) (p : ℕ) (first : Bool)
      → Announces hs n
      → set_length k o ds (loaded fl hs d false 0 0 eff ps b p first)
        ≡ ok (loaded fl hs d (ltb 0 n || false) n n eff ps b p first)
  unfolding set_length loaded enter_content
  set_length-loaded ds fl hs n d eff ps b p first a =
      ap (λ t. t >>= λ u. ok (enter_content k o u))
        (announce-loaded ds fl hs n d eff ps b p first a)

  -- the last `n` bytes of a message, as `TParsedData` holds them
  unfoldable pub body_part : ℕ → List ℕ → Option (List ℕ)
  body_part n req = if ltb 0 n then some (drop (length req - n) req) else none

  body_of-part : (n : ℕ) (req : List ℕ) → n ≤ length req → body_of k o n req ≡ ok (body_part n req)
  unfolding body_of body_part
  body_of-part n req h = elim (Bool-cases (ltb 0 n)) [
    | inl e ↦ if_true _ _ e ∙ if_false _ _ (le→ltb (length req) n h) ∙ ap ok (sym (if_true _ _ e))
    | inr e ↦ if_false _ _ e ∙ ap ok (sym (if_false _ _ e))
  ]

  -- A message is complete: it is given out, and the parser waits for the next one.
  pub flush-loaded :
      (fl : Option (List ℕ)) (hs : Headers) (d : Disk) (inside : Bool) (n cl eff : ℕ)
      (ps : List ParsedData) (b : o.Blob) (p : ℕ) (first : Bool)
      → 0 < length (bytes d)
      → n ≤ length (bytes d)
      → flush k o (loaded fl hs d inside n cl eff ps b p first)
        ≡ ok (
            heading k o k.fresh 0
              (ps
                ++ (record {
                  first_line = fl;
                  headers = hs;
                  body = body_part n (bytes d);
                  request = bytes d;
                }
                    ∷ []))
              b
              p
              true)
  unfolding flush flush_request emit reset loaded heading
  flush-loaded fl hs d inside n cl eff ps b p first h l =
      ap (λ t. flush_request k o t (loaded fl hs d inside n cl eff ps b p first)) (k.bytes-finish d)
      ∙ if_true _ _ (lt→ltb 0 (length (bytes d)) h)
      ∙ ap
          (λ t. t >>= λ body.
            ok (emit k o (bytes d) body (loaded fl hs d inside n cl eff ps b p first)))
          (body_of-part n (bytes d) l)

  -- The blank line ends the headers.
  pub finish_headers-heading :
      (ds : ℕ) (l : List ℕ) (ls : List (List ℕ)) (hs : Headers) (n : ℕ) (d : Disk)
      (ps : List ParsedData) (b : o.Blob) (p : ℕ) (first : Bool)
      → All IsText (l ∷ ls)
      → bytes d ≡ join (l ∷ ls) ++ (13 ∷ 10 ∷ [])
      → read_headers k o ls ([], false) ≡ (hs, false)
      → Announces hs n
      → finish_headers k o ds (heading k o d (length (bytes d)) ps b p first)
        ≡ leave_headers k o (
            ok
              (loaded (some (strip l)) hs d (ltb 0 n || false) n n (length (bytes d)) ps b p first))
  unfolding finish_headers heading
  finish_headers-heading ds l ls hs n d ps b p first t e h a =
      let size = length (bytes d) in
      let s = heading k o d size ps b p first in
      if_false _ _ (le→ltb size size (omega arith))
      ∙ ap (λ u. leave_headers k o (set_length k o ds (read_request k o (split_lines [] u) s)))
          (take_all size (bytes d) refl ∙ e)
      ∙ ap (λ u. leave_headers k o (set_length k o ds (read_request k o u s)))
          (split_lines-join (l ∷ ls) t)
      ∙ ap (λ u. leave_headers k o (set_length k o ds u))
          (read_request-heading l ls hs d size ps b p first h)
      ∙ ap (leave_headers k o) (set_length-loaded ds (some (strip l)) hs n d size ps b p first a)
