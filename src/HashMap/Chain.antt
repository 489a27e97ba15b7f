-- ===== src/HashMap/Chain.antt =====
-- The chains of containers/persistent/immutable_hashmap: what the loop of `Get` finds is the latest
-- value of the key.
use cxx_library.Prelude.{
  ℕ, zero, suc, ◌+◌, ◌-◌, ◌*◌, ◌%◌, ◌^◌, ◌≤◌, ◌<◌, ◌≡◌, refl, sym, ap, ◌∙◌, inl, inr, false, some,
  List, [], ◌∷◌, ◌++◌, arith, ltb, ◌==◌, if◌then◌else◌, length, length-append, append_assoc,
  Bool-cases, ==_iff, ltb→lt,
}
use cxx_library.HashMap.{Entry, restore, walk, word}
use cxx_library.HashMap.Log.{entry_bytes, restore-entry_bytes, total, regroup, length-word}
use cxx_library.HashMap.Deps.{Externals}

module _ (e : Externals) where
  -- the latest value of a key, or no bytes
  unfoldable pub lookup : List ℕ → List (List ℕ × List ℕ) → List ℕ
  lookup k [] = []
  lookup k (x ∷ xs) = if e.same x.0 k then x.1 else lookup k xs

-- `bucket` is the bucket of a key.
module _ (e : Externals) (bucket : List ℕ → ℕ) where
  open e use {same}

  -- The position, from 1, of a bucket's newest entry; 0 for none.
  unfoldable pub newest : ℕ → List (List ℕ × List ℕ) → ℕ
  newest b [] = 0
  newest b (x ∷ xs) = if bucket x.0 == b then 1 + total xs else newest b xs

  abbrev pub linked : List ℕ × List ℕ → List (List ℕ × List ℕ) → Entry
  linked x xs = record { key = x.0; value = x.1; prev = newest (bucket x.0) xs }

  -- the file behind the header
  unfoldable pub log : List (List ℕ × List ℕ) → List ℕ
  log [] = []
  log (x ∷ xs) = log xs ++ entry_bytes e (linked x xs)

  pub newest_le : (b : ℕ) (xs : List (List ℕ × List ℕ)) → newest b xs ≤ total xs
  unfolding newest total
  newest_le b [] = omega arith
  newest_le b (x ∷ xs) = ground (arith, newest_le b xs)

  pub length_le : (xs : List (List ℕ × List ℕ)) → length xs ≤ total xs
  unfolding total
  length_le [] = omega arith
  length_le (x ∷ xs) = omega (arith, length_le xs)

  pub length-entry_bytes :
      (x : Entry) → length (entry_bytes e x) ≡ 8 * 3 + length x.key + length x.value
  length-entry_bytes x = omega (
    arith,
    length-append (word e (length x.key))
        (x.key ++ (word e (length x.value) ++ (x.value ++ word e x.prev))),
    length-append x.key (word e (length x.value) ++ (x.value ++ word e x.prev)),
    length-append (word e (length x.value)) (x.value ++ word e x.prev),
    length-append x.value (word e x.prev),
    length-word e (length x.key),
    length-word e (length x.value),
    length-word e x.prev,
  )

  pub length-log : (xs : List (List ℕ × List ℕ)) → length (log xs) ≡ total xs
  unfolding log total
  length-log [] = refl
  length-log (x ∷ xs) = omega (
    arith,
    length-append (log xs) (entry_bytes e (linked x xs)),
    length-entry_bytes (linked x xs),
    length-log xs,
  )

  differs : (k l : List ℕ) → (bucket k == bucket l) ≡ false → same k l ≡ false
  differs k l h = elim (Bool-cases (same k l)) [
    | inl p ↦ ground (arith, h, ap bucket (e.same-eq k l p))
    | inr p ↦ p
  ]

  pub lookup-absent :
      (k : List ℕ) (xs : List (List ℕ × List ℕ)) → newest (bucket k) xs ≡ 0 → lookup e k xs ≡ []
  unfolding newest lookup
  lookup-absent k [] h = refl
  lookup-absent k (x ∷ xs) h = elim (Bool-cases (bucket x.0 == bucket k)) [
    | inl p ↦ absurd (ground (arith, h, p))
    | inr p ↦ rw (differs x.0 k p) (lookup-absent k xs (ground (arith, h, p)))
  ]

  -- What the entries behind the newest one find, when the chain goes on or ends.
  pub walk-lookup :
      (fuel : ℕ) (d head suf : List ℕ) (k : List ℕ) (xs : List (List ℕ × List ℕ))
      → d ≡ head ++ (log xs ++ suf)
      → length head + total xs + 1 < 2 ^ 64
      → 0 < newest (bucket k) xs
      → length xs < fuel
      → walk e fuel d (length head) k (length head + newest (bucket k) xs - 1)
        ≡ some (lookup e k xs)
  unfolding walk newest log lookup total
  walk-lookup fuel d head suf k [] f r p h = absurd (omega arith)
  walk-lookup zero d head suf k (x ∷ xs) f r p h = absurd (omega arith)
  walk-lookup (suc fuel) d head suf k (x ∷ xs) f r p h =
      elim (Bool-cases (bucket x.0 == bucket k)) [
        | inl q ↦
            rw (q, found)
              (elim (Bool-cases (same x.0 k)) [
                | inl s ↦ rw s refl
                | inr s ↦ rw s (
                    further
                      (λ t.
                        walk-lookup fuel d head (entry_bytes e (linked x xs) ++ suf) k xs behind
                          (omega arith) t (omega arith))
                      (ap (λ b. newest b xs) ((==_iff (bucket x.0) (bucket k)).0 q)))
              ])
        | inr q ↦
            rw (q, differs x.0 k q)
              (walk-lookup (suc fuel) d head (entry_bytes e (linked x xs) ++ suf) k xs behind
                (omega arith) (ground (arith, p, q)) (omega arith))
      ]
    where
      behind : d ≡ head ++ (log xs ++ (entry_bytes e (linked x xs) ++ suf))
      behind = f ∙ ap (λ t. head ++ t) (append_assoc (log xs) (entry_bytes e (linked x xs)) suf)

      found : restore e d (length head + (1 + total xs) - 1) ≡ some (linked x xs)
      found =
          restore-entry_bytes e d (head ++ log xs) suf (linked x xs)
            (length head + (1 + total xs) - 1)
            (regroup d head (log xs) (entry_bytes e (linked x xs) ++ suf) behind)
            (omega (arith, length-append head (log xs), length-log xs)) (omega arith) (omega arith)
            (omega (arith, newest_le (bucket x.0) xs))

      further :
          (0 < newest (bucket k) xs
            → walk e fuel d (length head) k (length head + newest (bucket k) xs - 1)
              ≡ some (lookup e k xs))
          → newest (bucket x.0) xs ≡ newest (bucket k) xs
          → (if ltb 0 (newest (bucket x.0) xs)
              then walk e fuel d
                  (length head)
                  k
                  ((length head + newest (bucket x.0) xs + 2 ^ 64 - 1) % 2 ^ 64)
              else some [])
            ≡ some (lookup e k xs)
      further next g = elim (Bool-cases (ltb 0 (newest (bucket x.0) xs))) [
        | inl t ↦ rw t (
            ap (walk e fuel d (length head) k)
              (omega (arith, g, newest_le (bucket k) xs, ltb→lt 0 (newest (bucket x.0) xs) t))
            ∙ next (ground (arith, g, t)))
        | inr t ↦ rw t (ap some (sym (lookup-absent k xs (ground (arith, g, t)))))
      ]
