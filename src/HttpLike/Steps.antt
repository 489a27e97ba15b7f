-- ===== src/HttpLike/Steps.antt =====
-- Steps of `ParseLine` of httplike/parser/parser.cpp on a copying parser.
use cxx_library.Prelude.{
  ℕ, ◌+◌, ◌<◌, ◌≡◌, refl, ap, ◌∙◌, Bool, true, false, not, ◌&&◌, none, List, [], ◌∷◌, ◌++◌, arith,
  ltb, ◌==◌, if◌then◌else◌, length, take, take-front, if_false,
}
use cxx_library.Blob.{BlobOps}
use cxx_library.HttpLike.Kit.{Kit}
use cxx_library.HttpLike.State.{ParsedData, ok, ◌>>=◌, State, append_request}
use cxx_library.HttpLike.Line.{
  is_blank, parse_line, header_line, pass_newline, counted_line, count, wrap_data, keep_line,
  keep_text, keep_newline, takes_last, current_line, end_line, finish_line, not_first,
}

module _ (k : Kit) (o : BlobOps) where
  open k use {Disk, bytes, append, fresh}

  -- a parser that reads the lines before the content, or waits for the first of them
  unfoldable pub heading : Disk → ℕ → List ParsedData → o.Blob → ℕ → Bool → State k o
  heading d eff ps b p first = record {
    first_line = none;
    headers = [];
    request = d;
    in_content = false;
    content_length = 0;
    original_length = 0;
    parsed = ps;
    infer_length = false;
    chunked = false;
    no_first_line = false;
    copy = true;
    stream = true;
    effective = eff;
    buf = b;
    processed = p;
    is_first = first;
  }

  pub and_false : (b : Bool) → (b && false) ≡ false
  and_false true = refl
  and_false false = refl

  count_heading :
      (n : ℕ) (d : Disk) (eff : ℕ) (ps : List ParsedData) (b : o.Blob) (p : ℕ) (first : Bool)
      → count k o n (heading d eff ps b p first) ≡ heading d eff ps b (p + n) first
  unfolding count heading
  count_heading n d eff ps b p first = refl

  wrap_data-heading :
      (ds : ℕ) (line : List ℕ) (d : Disk) (eff : ℕ) (ps : List ParsedData) (b : o.Blob) (p : ℕ)
      (first : Bool)
      → wrap_data k o ds line (heading d eff ps b p first) ≡ heading d eff ps b p first
  unfolding wrap_data heading
  wrap_data-heading ds line d eff ps b p first = if_false _ _ (and_false (not (k.has_data d)))

  keep_line-heading :
      (ds : ℕ) (line : List ℕ) (n : ℕ) (d : Disk) (eff : ℕ) (ps : List ParsedData) (b : o.Blob)
      (p : ℕ) (first : Bool)
      → keep_line k o ds line n (heading d eff ps b p first)
        ≡ header_line k o ds line n (heading d eff ps b p first)
  unfolding keep_line heading
  keep_line-heading ds line n d eff ps b p first = refl

  counted_line_kept :
      (ds : ℕ) (line : List ℕ) (n : ℕ) (s : State k o)
      → (s.effective == 0 && is_blank n line) ≡ false
      → counted_line k o ds line n s ≡ keep_line k o ds line n (wrap_data k o ds line s)
  unfolding counted_line
  counted_line_kept ds line n s g = if_false _ _ g

  -- A line that is not skipped before a message reaches the headers' part.
  pub parse_line-heading :
      (ds : ℕ) (line : List ℕ) (n : ℕ) (d : Disk) (eff : ℕ) (ps : List ParsedData) (b : o.Blob)
      (p : ℕ) (first : Bool)
      → (eff == 0 && is_blank n line) ≡ false
      → parse_line k o ds line n (heading d eff ps b p first)
        ≡ header_line k o ds line n (heading d eff ps b (p + n) first)
  unfolding parse_line heading
  parse_line-heading ds line n d eff ps b p first g =
      counted_line_kept ds line n (heading d eff ps b (p + n) first) g
      ∙ ap (keep_line k o ds line n) (wrap_data-heading ds line d eff ps b (p + n) first)
      ∙ keep_line-heading ds line n d eff ps b (p + n) first

  pub keep_text-heading :
      (line : List ℕ) (n : ℕ) (d : Disk) (eff : ℕ) (ps : List ParsedData) (b : o.Blob) (p : ℕ)
      (first : Bool)
      → 0 < n
      → keep_text k o line n (heading d eff ps b p first)
        ≡ heading (append (take n line) d) (eff + length (take n line)) ps b p first
  unfolding keep_text append_request heading
  keep_text-heading line n d eff ps b p first h =
      let long : ltb 0 n ≡ true = ground arith in rw long refl

  pub keep_newline-heading :
      (ds : ℕ) (d : Disk) (eff : ℕ) (ps : List ParsedData) (b : o.Blob) (p : ℕ) (first : Bool)
      → p < ds
      → keep_newline k o ds (heading d eff ps b p first)
        ≡ heading (append (10 ∷ []) d) (eff + 1) ps b (p + 1) first
  unfolding keep_newline pass_newline append_request heading
  keep_newline-heading ds d eff ps b p first h =
      let room : ltb p ds ≡ true = ground arith in rw room refl

  pub takes_last-heading :
      (d : Disk) (eff : ℕ) (ps : List ParsedData) (b : o.Blob) (p : ℕ) (first : Bool)
      → (first && ltb 0 eff) ≡ false
      → takes_last k o (heading d eff ps b p first) ≡ false
  unfolding takes_last heading
  takes_last-heading d eff ps b p first q = rw q refl

  pub header_line-here :
      (ds : ℕ) (line : List ℕ) (n : ℕ) (s : State k o)
      → takes_last k o s ≡ false
      → header_line k o ds line n s
        ≡ finish_line k o ds (keep_newline k o ds (keep_text k o line n s)) (ok (take n line))
  unfolding header_line current_line
  header_line-here ds line n s e =
      let added = keep_text k o line n s in
      let ended = keep_newline k o ds added in
      let seen : State k o = if ltb 0 n then ended else added in
      ap (λ (c : Bool). finish_line k o ds ended (current_line k o c (take n line) seen)) e

  -- A line of a heading: the text and its `'\n'` are kept, and the line is looked at.
  pub header_line-heading :
      (ds : ℕ) (line : List ℕ) (n : ℕ) (d : Disk) (eff : ℕ) (ps : List ParsedData) (b : o.Blob)
      (p : ℕ) (first : Bool)
      → 0 < n
      → p < ds
      → (first && ltb 0 eff) ≡ false
      → header_line k o ds line n (heading d eff ps b p first)
        ≡ finish_line k o ds
            (heading
              (append (10 ∷ []) (append (take n line) d))
              (eff + length (take n line) + 1)
              ps
              b
              (p + 1)
              first)
            (ok (take n line))
  header_line-heading ds line n d eff ps b p first h l q =
      header_line-here ds line n (heading d eff ps b p first)
        (takes_last-heading d eff ps b p first q)
      ∙ ap (λ t. finish_line k o ds t (ok (take n line)))
          (ap (keep_newline k o ds) (keep_text-heading line n d eff ps b p first h)
            ∙ keep_newline-heading ds (append (take n line) d) (eff + length (take n line)) ps b p
                first l)

  pub finish_line-text :
      (ds : ℕ) (w : List ℕ) (d : Disk) (eff : ℕ) (ps : List ParsedData) (b : o.Blob) (p : ℕ)
      (first : Bool)
      → is_blank (length w) w ≡ false
      → finish_line k o ds (heading d eff ps b p first) (ok w) ≡ ok (heading d eff ps b p false)
  unfolding finish_line end_line not_first heading
  finish_line-text ds w d eff ps b p first g =
      ap (λ t. t >>= λ u. ok (not_first k o u)) (if_false _ _ g)

  pub is_blank-front :
      (w rest : List ℕ)
      → is_blank (length w) w ≡ false
      → (is_blank (length w) (w ++ rest) ≡ false) × (0 < length w)
  unfolding is_blank
  is_blank-front [] rest g = absurd (ground (arith, g))
  is_blank-front (x ∷ w) rest g = (g, omega arith)

  -- A line of text is kept.
  pub parse_line-text :
      (ds : ℕ) (w mem : List ℕ) (d : Disk) (eff : ℕ) (ps : List ParsedData) (b : o.Blob) (p : ℕ)
      (first : Bool)
      → is_blank (length w) w ≡ false
      → p + length w < ds
      → (first && ltb 0 eff) ≡ false
      → parse_line k o ds (w ++ (10 ∷ mem)) (length w) (heading d eff ps b p first)
        ≡ ok (
            heading
              (append (10 ∷ []) (append w d))
              (eff + length w + 1)
              ps
              b
              (p + length w + 1)
              false)
  parse_line-text ds w mem d eff ps b p first g l q =
      let (plain, long) = is_blank-front w (10 ∷ mem) g in
      let skip : (eff == 0 && is_blank (length w) (w ++ (10 ∷ mem))) ≡ false =
        ap (λ t. eff == 0 && t) plain ∙ and_false (eff == 0) in
      parse_line-heading ds (w ++ (10 ∷ mem)) (length w) d eff ps b p first skip
      ∙ header_line-heading ds (w ++ (10 ∷ mem)) (length w) d eff ps b (p + length w) first long l q
      ∙ ap
          (λ t.
            finish_line k o ds
              (heading (append (10 ∷ []) (append t d)) (eff + length t + 1) ps b (p + length w + 1)
                first)
              (ok t))
          (take-front w (10 ∷ mem) (length w) refl)
      ∙ finish_line-text ds w (append (10 ∷ []) (append w d)) (eff + length w + 1) ps b
          (p + length w + 1) first g
