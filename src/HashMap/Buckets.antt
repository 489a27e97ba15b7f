-- ===== src/HashMap/Buckets.antt =====
-- The entries of the buckets of containers/persistent/immutable_hashmap, as its chains link them.
use cxx_library.Prelude.{
  ℕ, zero, suc, ◌+◌, ◌≤◌, ◌<◌, ◌≡◌, refl, sym, ap, ◌∙◌, inl, inr, List, [], ◌∷◌, ◌++◌, arith, ◌==◌,
  if◌then◌else◌, length, append_assoc, append-nil, Bool-cases, ==_iff,
}
use cxx_library.HashMap.Log.{entry_bytes, total}
use cxx_library.HashMap.Chain.{newest, log, linked}
use cxx_library.HashMap.Deps.{Externals}

-- The entries of a bucket, the newest first, and those of `m` buckets from `b` on.
module _ (bucket : List ℕ → ℕ) where
  unfoldable pub chain : ℕ → List (List ℕ × List ℕ) → List (List ℕ × List ℕ)
  chain b [] = []
  chain b (x ∷ xs) = if bucket x.0 == b then x ∷ chain b xs else chain b xs

  unfoldable pub chains : ℕ → ℕ → List (List ℕ × List ℕ) → List (List ℕ × List ℕ)
  chains zero b xs = []
  chains (suc m) b xs = chain b xs ++ chains m (b + 1) xs

module _ (e : Externals) (bucket : List ℕ → ℕ) where
  pub chain-nil :
      (b : ℕ) (xs : List (List ℕ × List ℕ)) → newest e bucket b xs ≡ 0 → chain bucket b xs ≡ []
  unfolding chain newest
  chain-nil b [] h = refl
  chain-nil b (x ∷ xs) h = elim (Bool-cases (bucket x.0 == b)) [
    | inl p ↦ absurd (ground (arith, h, p))
    | inr p ↦ rw p (chain-nil b xs (ground (arith, h, p)))
  ]

  -- The first entry of a bucket, and the older entries behind it.
  pub record First (b : ℕ) (xs : List (List ℕ × List ℕ)) : Type 0 where
    pub entry : List ℕ × List ℕ
    pub older : List (List ℕ × List ℕ)
    pub newer : List ℕ
    pub place : newest e bucket b xs ≡ 1 + total older
    pub visits : chain bucket b xs ≡ entry ∷ chain bucket b older
    pub bytes :
        log e bucket xs
        ≡ log e bucket older ++ (entry_bytes e (linked e bucket entry older) ++ newer)
    pub in_bucket : bucket entry.0 ≡ b
    pub within : total older + length entry.0 + length entry.1 ≤ total xs

  pub newest-First : (b : ℕ) (xs : List (List ℕ × List ℕ)) → 0 < newest e bucket b xs → First b xs
  unfolding chain newest log total
  newest-First b [] h = absurd (omega arith)
  newest-First b (x ∷ xs) h = elim (Bool-cases (bucket x.0 == b)) [
    | inl p ↦ record {
      entry = x;
      older = xs;
      newer = [];
      place = rw p refl;
      visits = rw p refl;
      bytes =
          ap (λ t. log e bucket xs ++ t) (sym (append-nil (entry_bytes e (linked e bucket x xs))));
      in_bucket = (==_iff (bucket x.0) b).0 p;
      within = omega arith;
    }
    | inr p ↦
        let f = newest-First b xs (ground (arith, h, p)) in
        record {
          entry = f.entry;
          older = f.older;
          newer = f.newer ++ entry_bytes e (linked e bucket x xs);
          place = rw p f.place;
          visits = rw p f.visits;
          bytes = ap (λ t. t ++ entry_bytes e (linked e bucket x xs)) f.bytes ∙ simp append_assoc;
          in_bucket = f.in_bucket;
          within = omega (arith, f.within);
        }
  ]
