-- ===== src/HttpLike/Content.antt =====
-- The content of a message in httplike/parser/parser.cpp: the loop over the data that hold it.
use cxx_library.Prelude.{
  ℕ, ◌+◌, ◌-◌, ◌<◌, ◌≤◌, ◌≡◌, inl, inr, sym, ap, ◌∙◌, Bool, true, false, ◌&&◌, Option, List, [],
  ◌∷◌, ◌++◌, arith, ◌==◌, length, length-append, append_assoc, append-nil, if_true, if_false,
  Bool-cases, lt→ltb, ==_iff,
}
use cxx_library.Blob.{BlobOps}
use cxx_library.HttpLike.Kit.{Kit}
use cxx_library.HttpLike.State.{ParsedData, Headers, ok, ◌>>=◌, State}
use cxx_library.HttpLike.Line.{end_content, parse_line}
use cxx_library.HttpLike.Body.{given, kept, bytes-kept, inside, parse_line-last, parse_line-more}
use cxx_library.HttpLike.Feed.{scan}
use cxx_library.HttpLike.Steps.{heading}
use cxx_library.HttpLike.Head.{loaded, flush-loaded}

module _ (k : Kit) (o : BlobOps) where
  open k use {Disk, bytes, append, fresh}

  -- the request with a line and its `'\n'`
  abbrev longer : List ℕ → Disk → Disk
  longer w d = append (10 ∷ []) (kept k o w d)

  bytes-longer : (w : List ℕ) (d : Disk) → bytes (longer w d) ≡ bytes d ++ w ++ (10 ∷ [])
  bytes-longer w d =
      k.bytes-append (10 ∷ []) (kept k o w d) ∙ ap (λ t. t ++ (10 ∷ [])) (bytes-kept k o w d)

  size_longer :
      (w : List ℕ) (d : Disk) → length (bytes (longer w d)) ≡ length (bytes d) + length w + 1
  size_longer w d = omega (
    arith,
    ap length (bytes-longer w d),
    length-append (bytes d ++ w) (10 ∷ []),
    length-append (bytes d) w,
  )

  module _ (fl : Option (List ℕ)) (hs : Headers) (n : ℕ) (ps : List ParsedData) (b : o.Blob) where
    -- the parser behind the message
    abbrev pub behind : List ℕ → ℕ → State k o
    behind req p = heading k o fresh 0 (ps ++ (given k o fl hs n req ∷ [])) b p true

    module _ (first : Bool) where
      abbrev here : Disk → ℕ → ℕ → ℕ → State k o
      here = inside k o fl hs n ps b first

      end_content-none :
          (d : Disk) (eff p : ℕ)
          → 0 < length (bytes d)
          → n ≤ length (bytes d)
          → end_content k o (here d 0 eff p) ≡ ok (behind (bytes d) p)
      unfolding end_content loaded
      end_content-none d eff p h l = flush-loaded k o fl hs d true n 0 eff ps b p first h l

      end_content-some :
          (d : Disk) (cl eff p : ℕ)
          → 0 < cl
          → end_content k o (here d cl eff p) ≡ ok (here d cl eff p)
      unfolding end_content loaded
      end_content-some d cl eff p h =
          let left : (cl == 0 && true) ≡ false = ground arith in if_false _ _ left

      past_newline :
          (ds : ℕ) (bs beyond : List ℕ) (d : Disk) (cl eff p : ℕ)
          → 0 < length (bytes d)
          → cl ≡ length bs
          → p + length bs ≡ ds
          → n ≤ length (bytes d) + cl
          → (0 < cl
              → scan k o ds (length bs) (bs ++ beyond) (bs ++ beyond) 0 (here d cl eff p)
                ≡ ok (behind (bytes d ++ bs) ds))
          → end_content k o (here d cl eff p)
              >>= (λ t. scan k o ds (length bs) (bs ++ beyond) (bs ++ beyond) 0 t)
            ≡ ok (behind (bytes d ++ bs) ds)
      unfolding scan
      past_newline ds [] beyond d cl eff p h e q l rest =
          ap (λ (c : ℕ). end_content k o (here d c eff p) >>= λ t. scan k o ds 0 beyond beyond 0 t)
            e
          ∙ ap (λ t. t >>= λ u. scan k o ds 0 beyond beyond 0 u)
              (end_content-none d eff p h (omega arith))
          ∙ ap (λ (t : ℕ). ok (behind (bytes d) t)) (omega arith)
          ∙ ap (λ t. ok (behind t ds)) (sym (append-nil (bytes d)))
      past_newline ds (c ∷ bs) beyond d cl eff p h e q l rest =
          ap
            (λ t.
              t >>= λ u. scan k o ds (length (c ∷ bs)) (c ∷ bs ++ beyond) (c ∷ bs ++ beyond) 0 u)
            (end_content-some d cl eff p (omega arith))
          ∙ rest (omega arith)

      -- The content, to the end of the data.
      pub scan-content :
          (ds : ℕ) (bs w beyond : List ℕ) (d : Disk) (cl eff p : ℕ)
          → 0 < eff
          → 0 < cl
          → cl ≡ length w + length bs
          → p + length w + length bs ≡ ds
          → n ≤ length (bytes d) + cl
          → scan k o ds
              (length bs)
              (bs ++ beyond)
              (w ++ (bs ++ beyond))
              (length w)
              (here d cl eff p)
            ≡ ok (behind (bytes d ++ (w ++ bs)) ds)
      unfolding scan
      scan-content ds [] w beyond d cl eff p h c e q l =
          if_true _ _ (lt→ltb 0 (length w) (omega arith))
          ∙ parse_line-last k o fl hs n ps b first ds w beyond d cl eff p h c (omega arith)
              (omega arith) (omega (arith, length-append (bytes d) w))
          ∙ ap (λ t. ok (behind (bytes d ++ t) ds)) (sym (append-nil w))
      scan-content ds (x ∷ bs) w beyond d cl eff p h c e q l = elim (Bool-cases (x == 10)) [
        | inl y ↦
            if_true _ _ y
            ∙ ap
                (λ (t : ℕ).
                  parse_line k o ds (w ++ (t ∷ bs ++ beyond)) (length w) (here d cl eff p) >>= λ u.
                  scan k o ds (length bs) (bs ++ beyond) (bs ++ beyond) 0 u)
                ((==_iff x 10).0 y)
            ∙ ap (λ t. t >>= λ u. scan k o ds (length bs) (bs ++ beyond) (bs ++ beyond) 0 u)
                (parse_line-more k o fl hs n ps b first ds w (bs ++ beyond) d cl eff p h
                  (omega arith) (omega arith))
            ∙ past_newline ds bs beyond (longer w d) (cl - length w - 1) (eff + length w + 1)
                (p + length w + 1) (omega (arith, size_longer w d)) (omega arith) (omega arith)
                (omega (arith, size_longer w d))
                (λ c'.
                  scan-content ds bs [] beyond (longer w d) (cl - length w - 1) (eff + length w + 1)
                    (p + length w + 1) (omega arith) c' (omega arith) (omega arith)
                    (omega (arith, size_longer w d)))
            ∙ ap (λ t. ok (behind t ds))
                (ap (λ t. t ++ bs) (bytes-longer w d)
                  ∙ (simp append_assoc)
                  ∙ ap (λ (t : ℕ). bytes d ++ (w ++ (t ∷ bs))) (sym ((==_iff x 10).0 y)))
        | inr y ↦
            if_false _ _ y
            ∙ ap (λ t. scan k o ds (length bs) (bs ++ beyond) t (length w + 1) (here d cl eff p))
                (sym (append_assoc w (x ∷ []) (bs ++ beyond)))
            ∙ ap
                (λ (t : ℕ).
                  scan k o ds (length bs) (bs ++ beyond) (w ++ (x ∷ []) ++ (bs ++ beyond)) t
                    (here d cl eff p))
                (sym (length-append w (x ∷ [])))
            ∙ scan-content ds bs (w ++ (x ∷ [])) beyond d cl eff p h c
                (omega (arith, length-append w (x ∷ []))) (omega (arith, length-append w (x ∷ [])))
                l
            ∙ ap (λ t. ok (behind (bytes d ++ t) ds)) (append_assoc w (x ∷ []) bs)
      ]
