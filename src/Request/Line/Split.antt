-- ===== src/Request/Line/Split.antt =====
-- The constructor of `TRequest` on a first line of a method, a target and a protocol, and on the
-- query that `TQueryParamsBuilder` writes.
use cxx_library.Prelude.{
  ℕ, ◌+◌, ◌-◌, ◌<◌, ◌≡◌, refl, sym, ap, ◌∙◌, List, [], ◌∷◌, ◌++◌, append-nil, append_assoc, length,
  length-append, All, arith,
}
use cxx_library.Request.Line.{
  RequestLine, method_field, path_field, protocol_field, assign, line_chars, split_path, read_line,
}
use cxx_library.Request.Line.Words.{IsWord, piece, word-space, word-last}

-- The first line of a request.
abbrev pub first_line : List ℕ → List ℕ → List ℕ → List ℕ
first_line method target protocol = method ++ (b' ' ∷ (target ++ (b' ' ∷ protocol)))

module _ (to_lower : List ℕ → List ℕ) (method target protocol : List ℕ) where
  -- the line
  abbrev content : List ℕ
  content = first_line method target protocol

  abbrev fields : RequestLine
  fields = record { method = to_lower method; path = target; protocol = protocol }

  protocol-last :
      (w : List ℕ) (off : ℕ) (r : RequestLine)
      → w ≡ protocol
      → content ≡ (method ++ (b' ' ∷ (target ++ (b' ' ∷ [])))) ++ w
      → off ≡ length (method ++ (b' ' ∷ (target ++ (b' ' ∷ []))))
      → All IsWord w
      → 0 < length w
      → line_chars to_lower content off w off (protocol_field ∷ []) r ≡ record r { protocol = w }
  unfolding assign
  protocol-last [] off r same e at_pre h some_w = absurd (omega arith)
  protocol-last (c ∷ w) off r same e at_pre h some_w =
      let size : length (c ∷ w) ≡ off + length (c ∷ w) - off = omega arith in
      let pre = method ++ (b' ' ∷ (target ++ (b' ' ∷ []))) in
      word-last to_lower content off c w off _ protocol_field r h size
      ∙ ap (λ t. record r { protocol = t })
          (piece content pre (c ∷ w) [] off _ (e ∙ ap (λ t. pre ++ t) (sym (append-nil (c ∷ w))))
            at_pre refl)

  line-fields :
      All IsWord method
      → All IsWord target
      → All IsWord protocol
      → 0 < length protocol
      → line_chars to_lower content 0 content 0
          (method_field ∷ path_field ∷ protocol_field ∷ [])
          (record { method = []; path = []; protocol = [] })
        ≡ fields
  unfolding assign
  line-fields words words' words'' some_protocol =
      let rest = target ++ (b' ' ∷ protocol) in
      let some_rest : 0 < length rest = omega (arith, length-append target (b' ' ∷ protocol)) in
      let pre = method ++ (b' ' ∷ []) in
      let off = 0 + length method + 1 in
      let at_pre : off ≡ length pre = omega (arith, length-append method (b' ' ∷ [])) in
      let off' = off + length target + 1 in
      let front = method ++ (b' ' ∷ (target ++ (b' ' ∷ []))) in
      let at_front : off' ≡ length front = omega (
        arith,
        length-append method (b' ' ∷ (target ++ (b' ' ∷ []))),
        length-append target (b' ' ∷ []),
      ) in
      let split : content ≡ front ++ protocol =
        ap (λ t. method ++ (b' ' ∷ t)) (sym (append_assoc target (b' ' ∷ []) protocol))
        ∙ sym (append_assoc method (b' ' ∷ (target ++ (b' ' ∷ []))) protocol) in
      word-space to_lower content method rest [] 0 method_field (path_field ∷ protocol_field ∷ []) _
        off refl refl words some_rest refl
      ∙ word-space to_lower content target protocol pre off path_field (protocol_field ∷ []) _ off'
          (sym (append_assoc method (b' ' ∷ []) rest)) at_pre words' some_protocol refl
      ∙ protocol-last protocol off' _ refl split at_front words'' some_protocol

  pub read_line-split :
      All IsWord method
      → All IsWord target
      → All IsWord protocol
      → 0 < length protocol
      → read_line to_lower content ≡ split_path to_lower fields
  unfolding read_line
  read_line-split words words' words'' some_protocol =
      ap (split_path to_lower) (line-fields words words' words'' some_protocol)
