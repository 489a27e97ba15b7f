-- ===== src/HttpLike/Message.antt =====
-- A whole message given to `TParser::Add` of httplike/parser/parser.cpp.
use cxx_library.Prelude.{
  ℕ, suc, ◌+◌, ◌<◌, ◌≤◌, ◌≡◌, inl, inr, refl, sym, ap, ◌∙◌, Bool, true, false, ◌&&◌, ◌||◌, some,
  List, [], ◌∷◌, ◌++◌, arith, ltb, ◌==◌, length, length-append, append_assoc, append-nil, All,
  Bool-cases, ltb→lt, eq_nil,
}
use cxx_library.Blob.{BlobOps}
use cxx_library.HttpLike.Kit.{Kit}
use cxx_library.HttpLike.State.{ParsedData, Headers, Result, ok, ◌>>=◌, State}
use cxx_library.HttpLike.Line.{
  is_blank, read_headers, not_first, end_line, finish_line, finish_headers, leave_headers,
  parse_line,
}
use cxx_library.HttpLike.Feed.{scan, add}
use cxx_library.HttpLike.Text.{IsText, join, scan-line}
use cxx_library.HttpLike.Steps.{heading, parse_line-heading, header_line-heading, parse_line-text}
use cxx_library.HttpLike.Head.{Announces, loaded, flush-loaded, finish_headers-heading}
use cxx_library.HttpLike.Body.{given}
use cxx_library.HttpLike.Content.{scan-content}

module _ (k : Kit) (o : BlobOps) where
  open k use {Disk, bytes, append, fresh, strip}

  abbrev pub keep_all : List (List ℕ) → Disk → Disk
  keep_all [] d = d
  keep_all (w ∷ ws) d = keep_all ws (append (10 ∷ []) (append w d))

  bytes-keep_all : (ws : List (List ℕ)) (d : Disk) → bytes (keep_all ws d) ≡ bytes d ++ join ws
  bytes-keep_all [] d = sym (append-nil (bytes d))
  bytes-keep_all (w ∷ ws) d =
      bytes-keep_all ws (append (10 ∷ []) (append w d))
      ∙ ap (λ t. t ++ join ws)
          (k.bytes-append (10 ∷ []) (append w d) ∙ ap (λ t. t ++ (10 ∷ [])) (k.bytes-append w d))
      ∙ (simp append_assoc)

  module _ (ds : ℕ) (ps : List ParsedData) (b : o.Blob) where
    abbrev at_heading : Disk → ℕ → ℕ → Bool → State k o
    at_heading d eff p first = heading k o d eff ps b p first

    scan_text :
        (w rest : List ℕ) (left m : ℕ) (d : Disk) (eff p : ℕ) (first : Bool)
        → IsText w
        → m ≡ length w + suc left
        → p + length w < ds
        → (first && ltb 0 eff) ≡ false
        → scan k o ds m (w ++ (10 ∷ rest)) (w ++ (10 ∷ rest)) 0 (at_heading d eff p first)
          ≡ scan k o ds left rest rest 0 (
              at_heading
                (append (10 ∷ []) (append w d))
                (eff + length w + 1)
                (p + length w + 1)
                false)
    scan_text w rest left m d eff p first t e h q =
        scan-line k o ds left m w rest (w ++ (10 ∷ rest)) 0 (at_heading d eff p first) e t.0
        ∙ ap
            (λ (n : ℕ). parse_line k o ds (w ++ (10 ∷ rest)) n (at_heading d eff p first) >>= λ u.
              scan k o ds left rest rest 0 u)
            (omega arith)
        ∙ ap (λ u. u >>= λ v. scan k o ds left rest rest 0 v)
            (parse_line-text k o ds w rest d eff ps b p first t.1 h q)

    scan_lines :
        (ws : List (List ℕ)) (rest : List ℕ) (left m : ℕ) (d : Disk) (eff p : ℕ)
        → All IsText ws
        → m ≡ length (join ws) + left
        → p + length (join ws) ≤ ds
        → scan k o ds m (join ws ++ rest) (join ws ++ rest) 0 (at_heading d eff p false)
          ≡ scan k o ds left rest rest 0
              (at_heading (keep_all ws d) (eff + length (join ws)) (p + length (join ws)) false)
    scan_lines [] rest left m d eff p t e h =
        ap (λ (n : ℕ). scan k o ds n rest rest 0 (at_heading d eff p false)) (omega arith)
        ∙ ap (λ (n : ℕ). scan k o ds left rest rest 0 (at_heading d n p false)) (omega arith)
        ∙ ap (λ (n : ℕ). scan k o ds left rest rest 0 (at_heading d (eff + 0) n false))
            (omega arith)
    scan_lines (w ∷ ws) rest left m d eff p t e h =
        let size = length-append w (10 ∷ join ws) in
        let d' = keep_all (w ∷ ws) d in
        ap (λ u. scan k o ds m u u 0 (at_heading d eff p false))
          (append_assoc w (10 ∷ join ws) rest)
        ∙ scan_text w (join ws ++ rest) (length (join ws) + left) m d eff p false t.0 (omega arith)
            (omega arith) refl
        ∙ scan_lines ws rest left (length (join ws) + left) (append (10 ∷ []) (append w d))
            (eff + length w + 1) (p + length w + 1) t.1 refl (omega arith)
        ∙ ap
            (λ (n : ℕ).
              scan k o ds left rest rest 0
                (at_heading d' n (p + length w + 1 + length (join ws)) false))
            (omega arith)
        ∙ ap
            (λ (n : ℕ).
              scan k o ds left rest rest 0 (at_heading d' (eff + length (join (w ∷ ws))) n false))
            (omega arith)

    finish_line-blank :
        (s : State k o)
        → finish_line k o ds s (ok (13 ∷ []))
          ≡ finish_headers k o ds s >>= λ t. ok (not_first k o t)
    unfolding finish_line end_line is_blank
    finish_line-blank s = refl

    -- The blank line is kept, and ends the headers.
    parse_line-blank :
        (mem : List ℕ) (d : Disk) (eff p : ℕ)
        → 0 < eff
        → p + 1 < ds
        → parse_line k o ds (13 ∷ 10 ∷ mem) 1 (at_heading d eff p false)
          ≡ finish_headers k o ds
              (at_heading (append (10 ∷ []) (append (13 ∷ []) d)) (eff + 1 + 1) (p + 1 + 1) false)
            >>= λ t. ok (not_first k o t)
    parse_line-blank mem d eff p h l =
        let kept_line : (eff == 0 && is_blank 1 (13 ∷ 10 ∷ mem)) ≡ false = ground arith in
        parse_line-heading k o ds (13 ∷ 10 ∷ mem) 1 d eff ps b p false kept_line
        ∙ header_line-heading k o ds (13 ∷ 10 ∷ mem) 1 d eff ps b (p + 1) false (omega arith) l refl
        ∙ finish_line-blank
            (at_heading (append (10 ∷ []) (append (13 ∷ []) d)) (eff + 1 + 1) (p + 1 + 1) false)

    module _ (l : List ℕ) (ls : List (List ℕ)) (hs : Headers) (bs beyond : List ℕ) where
      -- the parser behind the message
      abbrev behind : List ℕ → ℕ → Bool → State k o
      behind req p first =
          heading k o fresh 0 (ps ++ (given k o (some (strip l)) hs (length bs) req ∷ [])) b p first

      abbrev rest_of : Result (State k o) → Result (State k o)
      rest_of r = r >>= λ u. scan k o ds (length bs) (bs ++ beyond) (bs ++ beyond) 0 u

      abbrev full : Disk → ℕ → Bool → ℕ → State k o
      full d n inside p =
          loaded k o (some (strip l)) hs d inside n n (length (bytes d)) ps b p false

      scan_nothing :
          (cs : List ℕ) (s : State k o)
          → length cs ≡ 0
          → scan k o ds (length cs) (cs ++ beyond) (cs ++ beyond) 0 s ≡ ok s
      unfolding scan
      scan_nothing [] s e = refl
      scan_nothing (c ∷ cs) s e = absurd (omega arith)

      leave_headers-some :
          (d : Disk) (n p : ℕ)
          → leave_headers k o (ok (full d n true p)) >>= (λ t. ok (not_first k o t))
            ≡ ok (full d n true p)
      unfolding leave_headers not_first loaded
      leave_headers-some d n p = refl

      leave_headers-none :
          (d : Disk) (p : ℕ)
          → 0 < length (bytes d)
          → length bs ≤ length (bytes d)
          → leave_headers k o (ok (full d (length bs) false p)) >>= (λ t. ok (not_first k o t))
            ≡ ok (behind (bytes d) p false)
      unfolding leave_headers not_first loaded heading
      leave_headers-none d p h g =
          ap (λ t. t >>= λ u. ok (not_first k o u))
            (flush-loaded k o (some (strip l)) hs d false (length bs) (length bs) (length (bytes d))
              ps b p false h g)

      leave_headers-full :
          (d : Disk) (p : ℕ)
          → bytes d ≡ join (l ∷ ls) ++ (13 ∷ 10 ∷ [])
          → p + length bs ≡ ds
          → rest_of (
              leave_headers k o (ok (full d (length bs) (ltb 0 (length bs) || false) p)) >>= λ t.
              ok (not_first k o t))
            ≡ ok (behind (bytes d ++ bs) ds (ltb 0 (length bs)))
      leave_headers-full d p e q =
          let size = ap length e in
          let sum = length-append (join (l ∷ ls)) (13 ∷ 10 ∷ []) in
          let start = λ (c : Bool). rest_of (
            leave_headers k o (ok (full d (length bs) (c || false) p)) >>= λ t.
            ok (not_first k o t)) in
          let end = λ (req : List ℕ). λ (c : Bool). ok (behind req ds c) in
          elim (Bool-cases (ltb 0 (length bs))) [
            | inl y ↦
                ap start y
                ∙ ap rest_of (leave_headers-some d (length bs) p)
                ∙ scan-content k o (some (strip l)) hs (length bs) ps b false ds bs [] beyond d
                    (length bs) (length (bytes d)) p (omega arith) (ltb→lt 0 (length bs) y)
                    (omega arith) (omega arith) (omega arith)
                ∙ ap (end (bytes d ++ bs)) (sym y)
            | inr y ↦
                let empty : length bs ≡ 0 = ground (arith, y) in
                ap start y
                ∙ ap rest_of (leave_headers-none d p (omega arith) (omega arith))
                ∙ scan_nothing bs (behind (bytes d) p false) empty
                ∙ ap (λ t. ok (behind t p false))
                    (sym (append-nil (bytes d)) ∙ ap (λ t. bytes d ++ t) (sym (eq_nil bs empty)))
                ∙ ap (λ (t : ℕ). ok (behind (bytes d ++ bs) t false)) (omega arith)
                ∙ ap (end (bytes d ++ bs)) (sym y)
          ]

      -- What follows the blank line: nothing, or the content.
      after_blank :
          (d : Disk) (eff p : ℕ)
          → All IsText (l ∷ ls)
          → read_headers k o ls ([], false) ≡ (hs, false)
          → Announces k o hs (length bs)
          → bytes d ≡ join (l ∷ ls) ++ (13 ∷ 10 ∷ [])
          → eff ≡ length (bytes d)
          → p + length bs ≡ ds
          → rest_of (finish_headers k o ds (at_heading d eff p false) >>= λ t. ok (not_first k o t))
            ≡ ok (behind (bytes d ++ bs) ds (ltb 0 (length bs)))
      after_blank d eff p t h a e q r =
          ap
            (λ (n : ℕ).
              rest_of
                (finish_headers k o ds (at_heading d n p false) >>= λ u. ok (not_first k o u)))
            q
          ∙ ap (λ u. rest_of (u >>= λ v. ok (not_first k o v)))
              (finish_headers-heading k o ds l ls hs (length bs) d ps b p false t e h a)
          ∙ leave_headers-full d p e r

  -- The text of a message: its lines, a blank line and its content.
  abbrev pub text_of : List (List ℕ) → List ℕ → List ℕ
  text_of ls bs = join ls ++ (13 ∷ 10 ∷ bs)

  pub add-scan :
      (ds : ℕ) (mem : List ℕ) (ps : List ParsedData) (b : o.Blob) (p : ℕ) (first : Bool)
      → add k o ds mem (heading k o fresh 0 ps b p first)
        ≡ scan k o ds ds mem mem 0 (heading k o fresh 0 ps b 0 true)
  unfolding add heading
  add-scan ds mem ps b p first = refl

  bytes-blank :
      (l : List ℕ) (ls : List (List ℕ))
      → bytes (append (10 ∷ []) (append (13 ∷ []) (keep_all (l ∷ ls) fresh)))
        ≡ join (l ∷ ls) ++ (13 ∷ 10 ∷ [])
  bytes-blank l ls =
      k.bytes-append (10 ∷ []) (append (13 ∷ []) (keep_all (l ∷ ls) fresh))
      ∙ ap (λ t. t ++ (10 ∷ []))
          (k.bytes-append (13 ∷ []) (keep_all (l ∷ ls) fresh)
            ∙ ap (λ t. t ++ (13 ∷ []))
                (bytes-keep_all (l ∷ ls) fresh ∙ ap (λ t. t ++ join (l ∷ ls)) k.bytes-fresh))
      ∙ append_assoc (join (l ∷ ls)) (13 ∷ []) (10 ∷ [])

  -- A parser between messages, given a message whole: lines of text, a blank line and as much content
  -- as the headers announce, none of it chunked. `Add` gives out exactly that message, with its first
  -- line stripped, its headers, its content as the body and the text as the request, and the parser
  -- is between messages again; what lies in memory behind the data does not matter.
  pub add-message :
      (l : List ℕ) (ls : List (List ℕ)) (hs : Headers) (bs beyond : List ℕ) (ps : List ParsedData)
      (b : o.Blob) (p : ℕ) (first : Bool)
      → All IsText (l ∷ ls)
      → read_headers k o ls ([], false) ≡ (hs, false)
      → Announces k o hs (length bs)
      → add k o
          (length (text_of (l ∷ ls) bs))
          (text_of (l ∷ ls) bs ++ beyond)
          (heading k o fresh 0 ps b p first)
        ≡ ok (
            heading k o fresh 0
              (ps ++ (given k o (some (strip l)) hs (length bs) (text_of (l ∷ ls) bs) ∷ []))
              b
              (length (text_of (l ∷ ls) bs))
              (ltb 0 (length bs)))
  add-message l ls hs bs beyond ps b p first t h a =
      let text = text_of (l ∷ ls) bs in
      let ds = length text in
      let far = 13 ∷ 10 ∷ (bs ++ beyond) in
      let d1 = append (10 ∷ []) (append l fresh) in
      let d2 = keep_all ls d1 in
      let d3 = append (10 ∷ []) (append (13 ∷ []) d2) in
      let eff = 0 + length l + 1 + length (join ls) in
      let left = length (join ls) + (2 + length bs) in
      let size = length-append (join (l ∷ ls)) (13 ∷ 10 ∷ bs) in
      let size_l = length-append l (10 ∷ join ls) in
      let size_d = ap length (bytes-blank l ls) in
      let size_b = length-append (join (l ∷ ls)) (13 ∷ 10 ∷ []) in
      add-scan ds (text ++ beyond) ps b p first
      ∙ ap (λ u. scan k o ds ds u u 0 (heading k o fresh 0 ps b 0 true))
          (append_assoc (join (l ∷ ls)) (13 ∷ 10 ∷ bs) beyond ∙ append_assoc l (10 ∷ join ls) far)
      ∙ scan_text ds ps b l (join ls ++ far) left ds fresh 0 0 true t.0 (omega arith) (omega arith)
          refl
      ∙ scan_lines ds ps b ls far (2 + length bs) left d1 (0 + length l + 1) (0 + length l + 1) t.1
          refl (omega arith)
      ∙ scan-line k o ds (length bs) (2 + length bs) (13 ∷ []) (bs ++ beyond) far 0
          (heading k o d2 eff ps b eff false) (omega arith) (refl, tt)
      ∙ ap
          (λ (n : ℕ). parse_line k o ds far n (heading k o d2 eff ps b eff false) >>= λ u.
            scan k o ds (length bs) (bs ++ beyond) (bs ++ beyond) 0 u)
          (omega arith)
      ∙ ap (λ u. u >>= λ v. scan k o ds (length bs) (bs ++ beyond) (bs ++ beyond) 0 v)
          (parse_line-blank ds ps b (bs ++ beyond) d2 eff eff (omega arith) (omega arith))
      ∙ after_blank ds ps b l ls hs bs beyond d3 (eff + 1 + 1) (eff + 1 + 1) t h a
          (bytes-blank l ls) (omega arith) (omega arith)
      ∙ ap
          (λ u. ok (
            heading k o fresh 0 (ps ++ (given k o (some (strip l)) hs (length bs) u ∷ [])) b ds
              (ltb 0 (length bs))))
          (ap (λ u. u ++ bs) (bytes-blank l ls) ∙ append_assoc (join (l ∷ ls)) (13 ∷ 10 ∷ []) bs)
