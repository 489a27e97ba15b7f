-- ===== src/HashMap/Bytes.antt =====
-- Bytes in memory that containers/persistent/immutable_hashmap reads and writes by `memcpy`.
use cxx_library.Prelude.{
  drop-middle, take-front, ℕ, zero, suc, ◌+◌, ◌≤◌, ◌≡◌, refl, ap, Option, some, none, List, [], ◌∷◌,
  ◌++◌, arith, leb, if◌then◌else◌, length, take, drop, drop-append, length-drop, take-append,
  length-append, ◌∙◌, true,
}

-- `memcpy` of `xs` to index `i` of an array
unfoldable pub overwrite : ℕ → List ℕ → List ℕ → List ℕ
overwrite i xs [] = []
overwrite zero [] (y ∷ ys) = y ∷ ys
overwrite zero (x ∷ xs) (y ∷ ys) = x ∷ overwrite zero xs ys
overwrite (suc i) xs (y ∷ ys) = y ∷ overwrite i xs ys

-- `n` bytes at index `i`; a read out of range is `none`.
unfoldable pub read_bytes : List ℕ → ℕ → ℕ → Option (List ℕ)
read_bytes l i n = if leb (i + n) (length l) then some (take n (drop i l)) else none

pub length-overwrite : (i : ℕ) (xs l : List ℕ) → length (overwrite i xs l) ≡ length l
unfolding overwrite
length-overwrite i xs [] = refl
length-overwrite zero [] (y ∷ l) = refl
length-overwrite zero (x ∷ xs) (y ∷ l) = omega (arith, length-overwrite zero xs l)
length-overwrite (suc i) xs (y ∷ l) = omega (arith, length-overwrite i xs l)

pub overwrite-append :
    (i : ℕ) (xs l m : List ℕ)
    → i + length xs ≤ length l
    → overwrite i xs (l ++ m) ≡ overwrite i xs l ++ m
unfolding overwrite
overwrite-append zero [] [] [] h = refl
overwrite-append zero [] [] (y ∷ m) h = refl
overwrite-append zero (x ∷ xs) [] m h = absurd (omega arith)
overwrite-append (suc i) xs [] m h = absurd (omega arith)
overwrite-append zero [] (y ∷ l) m h = refl
overwrite-append zero (x ∷ xs) (y ∷ l) m h =
    ap (λ t. x ∷ t) (overwrite-append zero xs l m (omega arith))
overwrite-append (suc i) xs (y ∷ l) m h = ap (λ t. y ∷ t) (overwrite-append i xs l m (omega arith))

take-overwrite_same :
    (i : ℕ) (xs l : List ℕ)
    → i + length xs ≤ length l
    → take (length xs) (drop i (overwrite i xs l)) ≡ xs
unfolding overwrite
take-overwrite_same zero [] l h = refl
take-overwrite_same zero (x ∷ xs) [] h = absurd (omega arith)
take-overwrite_same (suc i) [] [] h = refl
take-overwrite_same (suc i) (x ∷ xs) [] h = absurd (omega arith)
take-overwrite_same zero (x ∷ xs) (y ∷ l) h =
    ap (λ t. x ∷ t) (take-overwrite_same zero xs l (omega arith))
take-overwrite_same (suc i) xs (y ∷ l) h = take-overwrite_same i xs l (omega arith)

pub take-overwrite_slot :
    (n i : ℕ) (xs l : List ℕ)
    → n ≡ length xs
    → i + n ≤ length l
    → take n (drop i (overwrite i xs l)) ≡ xs
take-overwrite_slot n i xs l e h =
    ap (λ t. take t (drop i (overwrite i xs l))) e ∙ take-overwrite_same i xs l (omega arith)

pub take-overwrite_before :
    (n j i : ℕ) (xs l : List ℕ) → j + n ≤ i → take n (drop j (overwrite i xs l)) ≡ take n (drop j l)
unfolding overwrite
take-overwrite_before n j i xs [] h = refl
take-overwrite_before zero zero i xs (y ∷ l) h = refl
take-overwrite_before (suc n) zero zero xs (y ∷ l) h = absurd (omega arith)
take-overwrite_before (suc n) zero (suc i) xs (y ∷ l) h =
    ap (λ t. y ∷ t) (take-overwrite_before n zero i xs l (omega arith))
take-overwrite_before n (suc j) zero xs (y ∷ l) h = absurd (omega arith)
take-overwrite_before n (suc j) (suc i) xs (y ∷ l) h =
    take-overwrite_before n j i xs l (omega arith)

pub drop-overwrite :
    (i j : ℕ) (xs l : List ℕ) → i + length xs ≤ j → drop j (overwrite i xs l) ≡ drop j l
unfolding overwrite
drop-overwrite i j xs [] h = refl
drop-overwrite zero j [] (y ∷ l) h = refl
drop-overwrite zero zero (x ∷ xs) (y ∷ l) h = absurd (omega arith)
drop-overwrite zero (suc j) (x ∷ xs) (y ∷ l) h = drop-overwrite zero j xs l (omega arith)
drop-overwrite (suc i) zero xs (y ∷ l) h = absurd (omega arith)
drop-overwrite (suc i) (suc j) xs (y ∷ l) h = drop-overwrite i j xs l (omega arith)

pub take-drop-take :
    (n j m : ℕ) (l : List ℕ) → j + n ≤ m → take n (drop j (take m l)) ≡ take n (drop j l)
take-drop-take zero zero zero l h = refl
take-drop-take (suc n) zero zero l h = absurd (omega arith)
take-drop-take n (suc j) zero l h = absurd (omega arith)
take-drop-take n j (suc m) [] h = refl
take-drop-take zero zero (suc m) (y ∷ l) h = refl
take-drop-take (suc n) zero (suc m) (y ∷ l) h =
    ap (λ t. y ∷ t) (take-drop-take n zero m l (omega arith))
take-drop-take n (suc j) (suc m) (y ∷ l) h = take-drop-take n j m l (omega arith)

pub take-long : (n : ℕ) (l : List ℕ) → length l ≤ n → take n l ≡ l
take-long zero [] h = refl
take-long zero (y ∷ l) h = absurd (omega arith)
take-long (suc n) [] h = refl
take-long (suc n) (y ∷ l) h = ap (λ t. y ∷ t) (take-long n l (omega arith))

pub take-drop-append :
    (n j : ℕ) (l rest : List ℕ) → j + n ≤ length l → take n (drop j (l ++ rest)) ≡ take n (drop j l)
take-drop-append n j l rest h =
    ap (take n) (drop-append j l rest (omega arith))
    ∙ take-append n (drop j l) rest (omega (arith, length-drop j l))

-- A read of a middle part.
pub read_bytes-at :
    (d pre xs suf : List ℕ) (i n : ℕ)
    → d ≡ pre ++ (xs ++ suf)
    → i ≡ length pre
    → n ≡ length xs
    → read_bytes d i n ≡ some xs
unfolding read_bytes
read_bytes-at d pre xs suf i n g e f =
    let within : leb (i + n) (length d) ≡ true =
      ground (arith, ap length g, length-append pre (xs ++ suf), length-append xs suf) in
    rw (within, g, drop-middle pre (xs ++ suf) i e, take-front xs suf n f) refl
