-- ===== src/HashMap/Plain.antt =====
-- A file that is its bytes and the number of them that are mapped: the interface can be met.
use cxx_library.Prelude.{
  same_bytes, same_bytes_refl, same_bytes-eq, ℕ, zero, suc, ◌+◌, ◌^◌, ◌<◌, ◌≡◌, refl, ap, ◌∙◌, true,
  List, [], ◌∷◌, ◌++◌, arith, length, take, replicate, length-take, length-append, length-replicate,
  take_all,
}
use cxx_library.HostOrder.{swap64}
use cxx_library.HashMap.Bytes.{overwrite, length-overwrite}
use cxx_library.HashMap.Deps.{Externals}

pub record PlainFile : Type 0 where
  pub bytes : List ℕ
  pub room : ℕ

-- a stand-in for the hash
abbrev pub sum : List ℕ → ℕ
sum [] = 0
sum (x ∷ xs) = x + sum xs

abbrev pub window : PlainFile → List ℕ
window f = take f.room f.bytes

pub take-length-take : (n : ℕ) (xs : List ℕ) → take n xs ≡ take (length (take n xs)) xs
take-length-take zero xs = refl
take-length-take (suc n) [] = refl
take-length-take (suc n) (x ∷ xs) = ap (λ t. x ∷ t) (take-length-take n xs)

pub swap64-lt : (n : ℕ) → n < 2 ^ 64 → swap64 n < 2 ^ 64
unfolding swap64
swap64-lt n h = omega arith

pub swap64-swap64 : (n : ℕ) → n < 2 ^ 64 → swap64 (swap64 n) ≡ n
unfolding swap64
swap64-swap64 n h = omega arith

pub swap64_zero : swap64 0 ≡ 0
unfolding swap64
swap64_zero = refl

abbrev pub plain_files : Externals
plain_files = record {
  File = PlainFile;
  is_open = λ f. true;
  content = λ f. f.bytes;
  mapped = window;
  append = λ xs f. record f { bytes = f.bytes ++ xs };
  poke = λ i xs f. record f { bytes = overwrite i xs f.bytes };
  remap = λ n f. record f { room = n };
  resize = λ n f. record { bytes = take n (f.bytes ++ replicate n 0); room = n };
  seek_to_end = λ f. f;
  hton = swap64;
  ntoh = swap64;
  murmur = λ seed k. seed + sum k;
  same = same_bytes;
  mapped-take = λ f. take-length-take f.room f.bytes;
  is_open-append = λ xs f. refl;
  content-append = λ xs f. refl;
  mapped-append = λ xs f. omega (
    arith,
    length-take f.room f.bytes,
    length-take f.room (f.bytes ++ xs),
    length-append f.bytes xs,
  );
  is_open-poke = λ i xs f. refl;
  content-poke = λ i xs f h. refl;
  mapped-poke = λ i xs f. omega (
    arith,
    length-take f.room f.bytes,
    length-take f.room (overwrite i xs f.bytes),
    length-overwrite i xs f.bytes,
  );
  is_open-remap = λ n f h. refl;
  content-remap = λ n f. refl;
  mapped-remap = λ n f h. omega (arith, length-take n f.bytes);
  content-resize = λ n f h.
      ap (λ (t : List ℕ). take n (t ++ replicate n 0)) h
      ∙ take_all n (replicate n 0) (length-replicate n 0);
  mapped-resize = λ n f. omega (
    arith,
    length-take n (take n (f.bytes ++ replicate n 0)),
    length-take n (f.bytes ++ replicate n 0),
    length-append f.bytes (replicate n 0),
    length-replicate {A = ℕ} n 0,
  );
  content-seek = λ f. refl;
  mapped-seek = λ f. refl;
  is_open-seek = λ f. refl;
  hton-lt = swap64-lt;
  ntoh-hton = swap64-swap64;
  hton-zero = swap64_zero;
  same-refl = same_bytes_refl;
  same-eq = same_bytes-eq;
}
