-- ===== src/HttpLike/Plain.antt =====
-- A disk that is its bytes, and functions that stand in for `Strip` and `ToLower`: the interface can
-- be met.
use cxx_library.Prelude.{
  ℕ, ◌+◌, ◌-◌, ◌*◌, ◌&&◌, List, [], ◌∷◌, ◌++◌, leb, ltb, if◌then◌else◌, length, map, refl,
}
use cxx_library.HttpLike.Kit.{Kit}

abbrev pub lower : ℕ → ℕ
lower c = if leb 65 c && leb c 90 then c + 32 else c

abbrev pub strip_left : List ℕ → List ℕ
strip_left [] = []
strip_left (c ∷ cs) = let rest = strip_left cs in if leb c 32 then rest else c ∷ cs

abbrev pub reverse : List ℕ → List ℕ → List ℕ
reverse acc [] = acc
reverse acc (c ∷ cs) = reverse (c ∷ acc) cs

abbrev pub to_number : ℕ → List ℕ → ℕ
to_number n [] = n
to_number n (c ∷ cs) = to_number (n * 10 + (c - 48)) cs

abbrev pub plain_kit : Kit
plain_kit = record {
  Disk = List ℕ;
  bytes = λ d. d;
  fresh = [];
  has_data = λ d. ltb 0 (length d);
  append = λ xs d. d ++ xs;
  wrap = λ xs. xs;
  finish = λ d. d;
  strip = λ xs. reverse [] (strip_left (reverse [] (strip_left xs)));
  to_lower = map lower;
  atoi = to_number 0;
  bytes-fresh = refl;
  has_data-ltb = λ d. refl;
  bytes-append = λ xs d. refl;
  bytes-wrap = λ xs. refl;
  bytes-finish = λ d. refl;
}
