-- ===== src/HttpLike/Split.antt =====
-- A line that two calls of `TParser::Add` of httplike/parser/parser.cpp share.
use cxx_library.Prelude.{
  ℕ, suc, ◌+◌, ◌-◌, ◌<◌, ◌≤◌, ◌≡◌, inl, refl, ap, ◌∙◌, Bool, true, false, not, ◌&&◌, some, List, [],
  ◌∷◌, ◌++◌, arith, ltb, ◌==◌, if◌then◌else◌, length, take, length-append, get_or, if_true,
  if_false, lt→ltb, le→ltb, take_all, take-front, All-append,
}
use cxx_library.Blob.{BlobOps}
use cxx_library.HttpLike.Kit.{Kit}
use cxx_library.HttpLike.State.{
  ParsedData, find_header, Result, ok, thrown, fault, ◌>>=◌, State, last_char,
}
use cxx_library.HttpLike.Line.{
  is_blank, split_lines, last_line, read_headers, read_request, name_first, set_headers, set_length,
  not_first, current_line, end_line, finish_line, finish_headers, leave_headers, parse_line,
  header_line, keep_text, keep_newline, takes_last,
}
use cxx_library.HttpLike.Feed.{scan, add}
use cxx_library.HttpLike.Text.{
  NoBreak, IsText, scan-line, scan-rest, split_lines-text, last_line-text,
}
use cxx_library.HttpLike.Steps.{
  heading, parse_line-heading, keep_text-heading, keep_newline-heading, takes_last-heading,
  header_line-here, finish_line-text, is_blank-front, parse_line-text,
}
use cxx_library.HttpLike.Head.{Announces, loaded, flush-loaded, set_length-loaded}
use cxx_library.HttpLike.Body.{given}
use cxx_library.HttpLike.Message.{add-scan}

last-NoBreak : (a : List ℕ) → NoBreak a → 0 < length a → (get_or a (length a - 1) 0 == 10) ≡ false
last-NoBreak [] h l = absurd (omega arith)
last-NoBreak (x ∷ []) h l = h.0
last-NoBreak (x ∷ y ∷ a) h l =
    let next : suc (suc (length a)) - 1 ≡ suc (suc (length a) - 1) = omega arith in
    ap (λ (i : ℕ). get_or (x ∷ y ∷ a) i 0 == 10) next ∙ last-NoBreak (y ∷ a) h.1 (omega arith)

long_line : (w : List ℕ) → 1 < length w → is_blank (length w) w ≡ false
unfolding is_blank
long_line w h = ground arith

module _ (k : Kit) (o : BlobOps) where
  open k use {Disk, bytes, append, fresh, strip}

  module _ (ds : ℕ) (ps : List ParsedData) (b : o.Blob) where
    abbrev at_heading : Disk → ℕ → ℕ → Bool → State k o
    at_heading d eff p first = heading k o d eff ps b p first

    keep_newline_end :
        (d : Disk) (eff p : ℕ) (first : Bool)
        → ds ≤ p
        → keep_newline k o ds (at_heading d eff p first) ≡ at_heading d eff p first
    unfolding keep_newline heading
    keep_newline_end d eff p first h = if_false _ _ (le→ltb p ds h)

    -- the first part of the line
    parse_line-begun :
        (a beyond : List ℕ)
        → IsText a
        → length a ≡ ds
        → parse_line k o ds (a ++ beyond) (length a) (at_heading fresh 0 0 true)
          ≡ ok (at_heading (append a fresh) (length a) ds false)
    parse_line-begun a beyond t e =
        let (plain, long) = is_blank-front k o a beyond t.1 in
        let skip : (0 == 0 && is_blank (length a) (a ++ beyond)) ≡ false = plain in
        parse_line-heading k o ds (a ++ beyond) (length a) fresh 0 ps b 0 true skip
        ∙ header_line-here k o ds (a ++ beyond) (length a) (at_heading fresh 0 (0 + length a) true)
            (takes_last-heading k o fresh 0 ps b (0 + length a) true refl)
        ∙ ap (λ t. finish_line k o ds (keep_newline k o ds t) (ok (take (length a) (a ++ beyond))))
            (keep_text-heading k o (a ++ beyond) (length a) fresh 0 ps b (0 + length a) true long)
        ∙ ap
            (λ t.
              finish_line k o ds
                (keep_newline k o ds
                  (at_heading (append t fresh) (0 + length t) (0 + length a) true))
                (ok t))
            (take-front a beyond (length a) refl)
        ∙ ap (λ t. finish_line k o ds t (ok a))
            (keep_newline_end (append a fresh) (0 + length a) (0 + length a) true (omega arith))
        ∙ finish_line-text k o ds a (append a fresh) (0 + length a) ps b (0 + length a) true t.1
        ∙ ap (λ (n : ℕ). ok (at_heading (append a fresh) n (0 + length a) false)) (omega arith)
        ∙ ap (λ (n : ℕ). ok (at_heading (append a fresh) (length a) n false)) (omega arith)

    read_request_one :
        (w : List ℕ) (d : Disk) (eff p : ℕ) (first : Bool)
        → read_request k o (w ∷ []) (at_heading d eff p first)
          ≡ loaded k o (some (strip w)) [] d false 0 0 eff ps b p first
    unfolding read_request name_first set_headers read_headers heading loaded
    read_request_one w d eff p first = refl

    leave_headers_one :
        (w : List ℕ) (d : Disk) (eff p : ℕ) (first : Bool)
        → 0 < length (bytes d)
        → leave_headers k o
            (set_length k o ds (loaded k o (some (strip w)) [] d false 0 0 eff ps b p first))
          ≡ ok (
              heading k o fresh 0 (ps ++ (given k o (some (strip w)) [] 0 (bytes d) ∷ [])) b p true)
    unfolding leave_headers loaded Announces find_header
    leave_headers_one w d eff p first h =
        ap (leave_headers k o)
          (set_length-loaded k o ds (some (strip w)) [] 0 d eff ps b p first (inl (refl, refl)))
        ∙ flush-loaded k o (some (strip w)) [] d false 0 0 eff ps b p first h (omega arith)

    split_lines-one : (w : List ℕ) → NoBreak w → split_lines [] (w ++ (10 ∷ [])) ≡ w ∷ []
    unfolding split_lines
    split_lines-one w t = split_lines-text [] w (10 ∷ []) t

    -- A request of one line, taken to be all of the headers.
    finish_headers-one :
        (w : List ℕ) (d : Disk) (p : ℕ) (first : Bool)
        → NoBreak w
        → bytes d ≡ w ++ (10 ∷ [])
        → finish_headers k o ds (at_heading d (length (bytes d)) p first)
          ≡ ok (
              heading k o fresh 0
                (ps ++ (given k o (some (strip w)) [] 0 (w ++ (10 ∷ [])) ∷ []))
                b
                p
                true)
    unfolding finish_headers heading
    finish_headers-one w d p first t e =
        let size = length (bytes d) in
        let s = at_heading d size p first in
        if_false _ _ (le→ltb size size (omega arith))
        ∙ ap (λ u. leave_headers k o (set_length k o ds (read_request k o (split_lines [] u) s)))
            (take_all size (bytes d) refl ∙ e)
        ∙ ap (λ u. leave_headers k o (set_length k o ds (read_request k o u s)))
            (split_lines-one w t)
        ∙ ap (λ u. leave_headers k o (set_length k o ds u)) (read_request_one w d size p first)
        ∙ leave_headers_one w d size p first (omega (arith, ap length e, length-append w (10 ∷ [])))
        ∙ ap
            (λ u.
              ok (heading k o fresh 0 (ps ++ (given k o (some (strip w)) [] 0 u ∷ [])) b p true))
            e

    takes_last_begun :
        (a : List ℕ) (p : ℕ)
        → NoBreak a
        → 0 < length a
        → takes_last k o (at_heading (append a fresh) (length a) p true) ≡ true
    unfolding takes_last last_char heading
    takes_last_begun a p t l =
        let whole : bytes (append a fresh) ≡ a =
          k.bytes-append a fresh ∙ ap (λ u. u ++ a) k.bytes-fresh in
        let some_data : k.has_data (append a fresh) ≡ true =
          k.has_data-ltb (append a fresh)
          ∙ ap (λ u. ltb 0 (length u)) whole
          ∙ lt→ltb 0 (length a) l in
        ap
          (λ c.
            c
            && not (
                (if k.has_data (append a fresh)
                  then get_or (bytes (append a fresh)) (length (bytes (append a fresh)) - 1) 0
                  else 0)
                == 10))
          (lt→ltb 0 (length a) l)
        ∙ ap not (
            ap (λ (n : ℕ). n == 10)
              (if_true _ _ some_data ∙ ap (λ u. get_or u (length u - 1) 0) whole)
            ∙ last-NoBreak a t l)

    finish_line-empty :
        (s : State k o)
        → finish_line k o ds s (ok []) ≡ finish_headers k o ds s >>= λ t. ok (not_first k o t)
    unfolding finish_line end_line is_blank
    finish_line-empty s = refl

    header_line-there :
        (line : List ℕ) (n : ℕ) (s : State k o)
        → 0 < n
        → takes_last k o s ≡ true
        → header_line k o ds line n s
          ≡ finish_line k o ds
              (keep_newline k o ds (keep_text k o line n s))
              (current_line k o true (take n line) (keep_newline k o ds (keep_text k o line n s)))
    unfolding header_line
    header_line-there line n s h e =
        let added = keep_text k o line n s in
        let ended = keep_newline k o ds added in
        ap (λ u. finish_line k o ds ended (current_line k o (takes_last k o s) (take n line) u))
          (if_true ended added (lt→ltb 0 n h))
        ∙ ap (λ (c : Bool). finish_line k o ds ended (current_line k o c (take n line) ended)) e

    -- The `'\n'` that was kept just now is taken for the last one before the line.
    current_line-empty :
        (w : List ℕ) (text : List ℕ) (d : Disk) (p : ℕ) (first : Bool)
        → bytes d ≡ w ++ (10 ∷ [])
        → current_line k o true text (at_heading d (length (bytes d)) p first) ≡ ok []
    unfolding current_line heading
    current_line-empty w text d p first e =
        let size = length (bytes d) in
        if_false _ _ (le→ltb size size (omega arith))
        ∙ ap (λ u. ok (last_line [] u)) (take_all size (bytes d) refl ∙ e)
        ∙ ap ok (last_line-text [] w)

    -- the request when the rest of the line is kept
    abbrev joined : List ℕ → List ℕ → Disk
    joined a c = append (10 ∷ []) (append c (append a fresh))

    bytes-joined : (a c : List ℕ) → bytes (joined a c) ≡ a ++ c ++ (10 ∷ [])
    bytes-joined a c =
        k.bytes-append (10 ∷ []) (append c (append a fresh))
        ∙ ap (λ t. t ++ (10 ∷ []))
            (k.bytes-append c (append a fresh)
              ∙ ap (λ t. t ++ c) (k.bytes-append a fresh ∙ ap (λ t. t ++ a) k.bytes-fresh))

    -- the rest of the line
    parse_line-joined :
        (a c beyond : List ℕ)
        → IsText a
        → IsText c
        → length c < ds
        → parse_line k o ds
            (c ++ (10 ∷ beyond))
            (length c)
            (at_heading (append a fresh) (length a) 0 true)
          ≡ ok (
              heading k o fresh 0
                (ps ++ (given k o (some (strip (a ++ c))) [] 0 (a ++ c ++ (10 ∷ [])) ∷ []))
                b
                (length c + 1)
                false)
    unfolding not_first heading
    parse_line-joined a c beyond t u h =
        let line = c ++ (10 ∷ beyond) in
        let n = length c in
        let d = append a fresh in
        let text = take n line in
        let full = joined a c in
        let long_a = (is_blank-front k o a [] t.1).1 in
        let long_c = (is_blank-front k o c [] u.1).1 in
        let skip : (length a == 0 && is_blank n line) ≡ false = ground arith in
        let size : length a + n + 1 ≡ length (bytes full) = omega (
          arith,
          ap length (bytes-joined a c),
          length-append (a ++ c) (10 ∷ []),
          length-append a c,
        ) in
        parse_line-heading k o ds line n d (length a) ps b 0 true skip
        ∙ header_line-there line n (at_heading d (length a) (0 + n) true) long_c
            (takes_last_begun a (0 + n) t.0 long_a)
        ∙ ap
            (λ s.
              finish_line k o ds (keep_newline k o ds s)
                (current_line k o true text (keep_newline k o ds s)))
            (keep_text-heading k o line n d (length a) ps b (0 + n) true long_c)
        ∙ ap (λ s. finish_line k o ds s (current_line k o true text s))
            (keep_newline-heading k o ds (append text d) (length a + length text) ps b (0 + n) true
              (omega arith))
        ∙ ap
            (λ w.
              finish_line k o ds
                (at_heading (append (10 ∷ []) (append w d)) (length a + length w + 1) (0 + n + 1)
                  true)
                (current_line k o true text (
                  at_heading (append (10 ∷ []) (append w d)) (length a + length w + 1) (0 + n + 1)
                    true)))
            (take-front c (10 ∷ beyond) n refl)
        ∙ ap
            (λ (i : ℕ).
              finish_line k o ds (at_heading full i (0 + n + 1) true)
                (current_line k o true text (at_heading full i (0 + n + 1) true)))
            size
        ∙ ap (finish_line k o ds (at_heading full (length (bytes full)) (0 + n + 1) true))
            (current_line-empty (a ++ c) text full (0 + n + 1) true (bytes-joined a c))
        ∙ finish_line-empty (at_heading full (length (bytes full)) (0 + n + 1) true)
        ∙ ap (λ s. s >>= λ v. ok (not_first k o v))
            (finish_headers-one (a ++ c) full (0 + n + 1) true
              (All-append (λ x. (x == 10) ≡ false) a c t.0 u.0) (bytes-joined a c))
        ∙ ap
            (λ (i : ℕ). ok (
              heading k o fresh 0
                (ps ++ (given k o (some (strip (a ++ c))) [] 0 (a ++ c ++ (10 ∷ [])) ∷ [])) b i
                false))
            (omega arith)

  add-begun :
      (a beyond : List ℕ) (ps : List ParsedData) (b : o.Blob) (p : ℕ) (first : Bool)
      → IsText a
      → add k o (length a) (a ++ beyond) (heading k o fresh 0 ps b p first)
        ≡ ok (heading k o (append a fresh) (length a) ps b (length a) false)
  add-begun a beyond ps b p first t =
      add-scan k o (length a) (a ++ beyond) ps b p first
      ∙ scan-rest k o (length a) a beyond (a ++ beyond) 0 (heading k o fresh 0 ps b 0 true) t.0
      ∙ if_true _ _ (lt→ltb 0 (0 + length a) (omega (arith, (is_blank-front k o a [] t.1).1)))
      ∙ ap (λ (n : ℕ). parse_line k o (length a) (a ++ beyond) n (heading k o fresh 0 ps b 0 true))
          (omega arith)
      ∙ parse_line-begun (length a) ps b a beyond t refl

  -- the loop over a line and its `'\n'`, the whole of the data
  scan-only :
      (w beyond : List ℕ) (s : State k o)
      → NoBreak w
      → scan k o (length w + 1) (length w + 1) (w ++ (10 ∷ beyond)) (w ++ (10 ∷ beyond)) 0 s
        ≡ parse_line k o (length w + 1) (w ++ (10 ∷ beyond)) (length w) s
  unfolding scan
  scan-only w beyond s t =
      scan-line k o (length w + 1) 0 (length w + 1) w beyond (w ++ (10 ∷ beyond)) 0 s (omega arith)
        t
      ∙ ok_last (parse_line k o (length w + 1) (w ++ (10 ∷ beyond)) (0 + length w) s)
      ∙ ap (λ (n : ℕ). parse_line k o (length w + 1) (w ++ (10 ∷ beyond)) n s) (omega arith)
    where
      ok_last : (r : Result (State k o)) → (r >>= λ u. ok u) ≡ r
      ok_last (ok u) = refl
      ok_last thrown = refl
      ok_last fault = refl

  add-joined :
      (a c beyond : List ℕ) (ps : List ParsedData) (b : o.Blob) (p : ℕ) (first : Bool)
      → IsText a
      → IsText c
      → add k o
          (length c + 1)
          (c ++ (10 ∷ beyond))
          (heading k o (append a fresh) (length a) ps b p first)
        ≡ ok (
            heading k o fresh 0
              (ps ++ (given k o (some (strip (a ++ c))) [] 0 (a ++ c ++ (10 ∷ [])) ∷ []))
              b
              (length c + 1)
              false)
  unfolding add heading
  add-joined a c beyond ps b p first t u =
      scan-only c beyond (heading k o (append a fresh) (length a) ps b 0 true) u.0
      ∙ parse_line-joined (length c + 1) ps b a c beyond t u (omega arith)

  add-line :
      (w beyond : List ℕ) (ps : List ParsedData) (b : o.Blob) (p : ℕ) (first : Bool)
      → IsText w
      → add k o (length w + 1) (w ++ (10 ∷ beyond)) (heading k o fresh 0 ps b p first)
        ≡ ok (
            heading k o
              (append (10 ∷ []) (append w fresh))
              (0 + length w + 1)
              ps
              b
              (0 + length w + 1)
              false)
  add-line w beyond ps b p first t =
      add-scan k o (length w + 1) (w ++ (10 ∷ beyond)) ps b p first
      ∙ scan-only w beyond (heading k o fresh 0 ps b 0 true) t.0
      ∙ parse_line-text k o (length w + 1) w beyond fresh 0 ps b 0 true t.1 (omega arith) refl

  joined-IsText : (a c : List ℕ) → IsText a → IsText c → IsText (a ++ c)
  joined-IsText a c t u = (
    All-append (λ x. (x == 10) ≡ false) a c t.0 u.0,
    long_line (a ++ c) (
        omega (
          arith,
          length-append a c,
          (is_blank-front k o a [] t.1).1,
          (is_blank-front k o c [] u.1).1,
        )),
  )

  -- The first line of a message, cut into two pieces of text by the end of a call. Where the whole
  -- line, with its `'\n'`, in one call of `Add` gives out no message yet, the two pieces in two calls
  -- give out a message at once: it has that first line, no headers and no body.
  pub add-split :
      (a c beyond beyond' : List ℕ) (ps : List ParsedData) (b : o.Blob) (p : ℕ) (first : Bool)
      → IsText a
      → IsText c
      → (s s' : State k o) × (add k o
            (length (a ++ c) + 1)
            (a ++ c ++ (10 ∷ beyond'))
            (heading k o fresh 0 ps b p first)
          ≡ ok s)
        × (s.parsed ≡ ps)
        × ((add k o (length a) (a ++ beyond) (heading k o fresh 0 ps b p first)
              >>= add k o (length c + 1) (c ++ (10 ∷ beyond')))
            ≡ ok s')
        × (s'.parsed ≡ ps ++ (given k o (some (strip (a ++ c))) [] 0 (a ++ c ++ (10 ∷ [])) ∷ []))
  unfolding heading
  add-split a c beyond beyond' ps b p first t u = (
    heading k o (append (10 ∷ []) (append (a ++ c) fresh)) (0 + length (a ++ c) + 1) ps b
        (0 + length (a ++ c) + 1) false,
    heading k o fresh 0 (ps ++ (given k o (some (strip (a ++ c))) [] 0 (a ++ c ++ (10 ∷ [])) ∷ []))
        b (length c + 1) false,
    add-line (a ++ c) beyond' ps b p first (joined-IsText a c t u),
    refl,
    ap (λ s. s >>= add k o (length c + 1) (c ++ (10 ∷ beyond'))) (add-begun a beyond ps b p first t)
        ∙ add-joined a c beyond' ps b (length a) false t u,
    refl,
  )
