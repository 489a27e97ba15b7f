-- ===== src/HttpLike/Body.antt =====
-- The content of a message in httplike/parser/parser.cpp: `ParseLine` on the lines of it.
use cxx_library.Prelude.{
  ℕ, suc, ◌+◌, ◌-◌, ◌<◌, ◌≤◌, ◌≡◌, refl, sym, ap, ◌∙◌, Bool, true, false, not, ◌&&◌, Option, none,
  List, [], ◌∷◌, ◌++◌, arith, leb, ◌==◌, if◌then◌else◌, length, take, drop, take-front,
  length-append, append-nil, if_true, if_false, lt→ltb, le→ltb,
}
use cxx_library.Blob.{BlobOps}
use cxx_library.HttpLike.Kit.{Kit}
use cxx_library.HttpLike.State.{
  ParsedData, Headers, Result, ok, thrown, fault, ◌>>=◌, State, append_request, flush,
}
use cxx_library.HttpLike.Line.{
  is_blank, pass_newline, take_content, leave_content, last_content, take_text, take_newline,
  end_content, more_content, content_line, go_on, wrap_data, keep_line, count, counted_line,
  parse_line,
}
use cxx_library.HttpLike.Steps.{heading, and_false}
use cxx_library.HttpLike.Head.{loaded, body_part, flush-loaded}

module _ (k : Kit) (o : BlobOps) where
  open k use {Disk, bytes, append, fresh}

  -- the message that is given out
  abbrev pub given : Option (List ℕ) → Headers → ℕ → List ℕ → ParsedData
  given fl hs n req = record {
    first_line = fl;
    headers = hs;
    body = body_part k o n req;
    request = req;
  }

  -- `AppendToCurrentRequest`, but for no bytes
  unfoldable pub kept : List ℕ → Disk → Disk
  kept [] d = d
  kept (c ∷ w) d = append (c ∷ w) d

  pub bytes-kept : (w : List ℕ) (d : Disk) → bytes (kept w d) ≡ bytes d ++ w
  unfolding kept
  bytes-kept [] d = sym (append-nil (bytes d))
  bytes-kept (c ∷ w) d = k.bytes-append (c ∷ w) d

  module _ (fl : Option (List ℕ)) (hs : Headers) (n : ℕ) (ps : List ParsedData) (b : o.Blob)
      (first : Bool) where
    -- a parser in the content of the message
    abbrev pub inside : Disk → ℕ → ℕ → ℕ → State k o
    inside d cl eff p = loaded k o fl hs d true n cl eff ps b p first

    wrap_data-inside :
        (ds : ℕ) (line : List ℕ) (d : Disk) (cl eff p : ℕ)
        → wrap_data k o ds line (inside d cl eff p) ≡ inside d cl eff p
    unfolding wrap_data loaded
    wrap_data-inside ds line d cl eff p = if_false _ _ (and_false k o (not (k.has_data d)))

    counted_line-inside :
        (ds : ℕ) (line : List ℕ) (m : ℕ) (d : Disk) (cl eff p : ℕ)
        → 0 < eff
        → counted_line k o ds line m (inside d cl eff p)
          ≡ keep_line k o ds line m (wrap_data k o ds line (inside d cl eff p))
    unfolding counted_line loaded
    counted_line-inside ds line m d cl eff p h =
        let kept_line : (eff == 0 && is_blank m line) ≡ false = ground arith in
        if_false _ _ kept_line

    -- A line reaches the content's part.
    parse_line-inside :
        (ds : ℕ) (line : List ℕ) (m : ℕ) (d : Disk) (cl eff p : ℕ)
        → 0 < eff
        → parse_line k o ds line m (inside d cl eff p)
          ≡ (if leb cl m
              then last_content k o ds line m (inside d cl eff (p + m))
              else (more_content k o ds (take_text k o line m (inside d cl eff (p + m))) >>= λ t.
                  ok (t, none)))
            >>= go_on k o ds
    unfolding parse_line count keep_line content_line loaded
    parse_line-inside ds line m d cl eff p h =
        counted_line-inside ds line m d cl eff (p + m) h
        ∙ ap (keep_line k o ds line m) (wrap_data-inside ds line d cl eff (p + m))

    take_content-inside :
        (line w : List ℕ) (d : Disk) (cl eff p : ℕ)
        → take cl line ≡ w
        → 0 < cl
        → take_content k o line (inside d cl eff p) ≡ inside (append w d) 0 (eff + length w) p
    unfolding take_content append_request loaded
    take_content-inside line w d cl eff p e h =
        if_true _ _ (lt→ltb 0 cl h)
        ∙ ap (λ t. loaded k o fl hs (append t d) true n 0 (eff + length t) ps b p first) e

    pass_newline-inside :
        (ds : ℕ) (d : Disk) (cl eff p : ℕ)
        → ds ≤ p
        → pass_newline k o ds (inside d cl eff p) ≡ inside d cl eff p
    unfolding pass_newline loaded
    pass_newline-inside ds d cl eff p h = if_false _ _ (le→ltb p ds h)

    leave_content-inside :
        (ds : ℕ) (line : List ℕ) (d : Disk) (eff p : ℕ)
        → ds ≤ p
        → 0 < length (bytes d)
        → n ≤ length (bytes d)
        → leave_content k o ds line 0 (inside d 0 eff p)
          ≡ ok (heading k o fresh 0 (ps ++ (given fl hs n (bytes d) ∷ [])) b p true, none)
    unfolding leave_content loaded
    leave_content-inside ds line d eff p h l g =
        ap (λ t. flush k o t >>= λ u. ok (u, none)) (pass_newline-inside ds d 0 eff p h)
        ∙ ap (λ t. t >>= λ u. ok (u, none)) (flush-loaded k o fl hs d true n 0 eff ps b p first l g)

    last_content-inside :
        (ds : ℕ) (w mem : List ℕ) (d : Disk) (cl eff p : ℕ)
        → 0 < cl
        → cl ≡ length w
        → ds ≤ p
        → n ≤ length (bytes d ++ w)
        → last_content k o ds (w ++ mem) (length w) (inside d cl eff p)
          ≡ ok (heading k o fresh 0 (ps ++ (given fl hs n (bytes d ++ w) ∷ [])) b p true, none)
    unfolding last_content loaded
    last_content-inside ds w mem d cl eff p c e q l =
        let rest = drop cl (w ++ mem) in
        let size = ap length (k.bytes-append w d) in
        let sum = length-append (bytes d) w in
        let nothing : length w - cl ≡ 0 = omega arith in
        ap (leave_content k o ds rest (length w - cl))
          (take_content-inside (w ++ mem) w d cl eff p (take-front w mem cl e) c)
        ∙ ap (λ (m : ℕ). leave_content k o ds rest m (inside (append w d) 0 (eff + length w) p))
            nothing
        ∙ leave_content-inside ds rest (append w d) (eff + length w) p q (omega arith) (omega arith)
        ∙ ap (λ t. ok (heading k o fresh 0 (ps ++ (given fl hs n t ∷ [])) b p true, none))
            (k.bytes-append w d)

    -- The last line of the content, when it is the last of the data, too.
    pub parse_line-last :
        (ds : ℕ) (w mem : List ℕ) (d : Disk) (cl eff p : ℕ)
        → 0 < eff
        → 0 < cl
        → cl ≡ length w
        → p + length w ≡ ds
        → n ≤ length (bytes d ++ w)
        → parse_line k o ds (w ++ mem) (length w) (inside d cl eff p)
          ≡ ok (heading k o fresh 0 (ps ++ (given fl hs n (bytes d ++ w) ∷ [])) b ds true)
    unfolding go_on
    parse_line-last ds w mem d cl eff p h c e q l =
        let whole : leb cl (length w) ≡ true = ground arith in
        parse_line-inside ds (w ++ mem) (length w) d cl eff p h
        ∙ ap (λ t. t >>= go_on k o ds)
            (if_true _ _ whole
              ∙ last_content-inside ds w mem d cl eff (p + length w) c e (omega arith) l)
        ∙ ap (λ t. ok (heading k o fresh 0 (ps ++ (given fl hs n (bytes d ++ w) ∷ [])) b t true)) q

    take_text-inside :
        (w mem : List ℕ) (d : Disk) (cl eff p : ℕ)
        → take_text k o (w ++ mem) (length w) (inside d cl eff p)
          ≡ inside (kept w d) (cl - length w) (eff + length w) p
    unfolding take_text append_request kept loaded
    take_text-inside [] mem d cl eff p =
        ap (λ (t : ℕ). inside d t eff p) (omega arith)
        ∙ ap (λ (t : ℕ). inside d (cl - 0) t p) (omega arith)
    take_text-inside (c ∷ w) mem d cl eff p =
        if_true _ _ (lt→ltb 0 (suc (length w)) (omega arith))
        ∙ ap (λ t. inside (append t d) (cl - suc (length w)) (eff + length t) p)
            (take-front (c ∷ w) mem (suc (length w)) refl)

    more_content-inside :
        (ds : ℕ) (d : Disk) (cl eff p : ℕ)
        → p < ds
        → more_content k o ds (inside d cl eff p)
          ≡ end_content k o (inside (append (10 ∷ []) d) (cl - 1) (eff + 1) (p + 1))
    unfolding more_content take_newline append_request loaded
    more_content-inside ds d cl eff p h = if_true _ _ (lt→ltb p ds h)

    go_on-none : (ds : ℕ) (r : Result (State k o)) → (r >>= λ t. ok (t, none)) >>= go_on k o ds ≡ r
    unfolding go_on
    go_on-none ds (ok t) = refl
    go_on-none ds thrown = refl
    go_on-none ds fault = refl

    -- A line of the content behind which it goes on or ends with the `'\n'`.
    pub parse_line-more :
        (ds : ℕ) (w mem : List ℕ) (d : Disk) (cl eff p : ℕ)
        → 0 < eff
        → length w < cl
        → p + length w < ds
        → parse_line k o ds (w ++ (10 ∷ mem)) (length w) (inside d cl eff p)
          ≡ end_content k o (
              inside
                (append (10 ∷ []) (kept w d))
                (cl - length w - 1)
                (eff + length w + 1)
                (p + length w + 1))
    parse_line-more ds w mem d cl eff p h c l =
        let part : leb cl (length w) ≡ false = ground arith in
        let p' = p + length w in
        parse_line-inside ds (w ++ (10 ∷ mem)) (length w) d cl eff p h
        ∙ ap (λ t. t >>= go_on k o ds) (if_false _ _ part)
        ∙ go_on-none ds
            (more_content k o ds (take_text k o (w ++ (10 ∷ mem)) (length w) (inside d cl eff p')))
        ∙ ap (more_content k o ds) (take_text-inside w (10 ∷ mem) d cl eff p')
        ∙ more_content-inside ds (kept w d) (cl - length w) (eff + length w) p' l
