-- ===== src/Blob/Bare.antt =====
-- Blobs that are their bytes: the interface can be met.
use cxx_library.Prelude.{ℕ, List, [], ◌++◌, set, take, drop, refl}
use cxx_library.Blob.{BlobOps}

abbrev pub bare_blobs : BlobOps
bare_blobs = record {
  Blob = List ℕ;
  bytes = λ b. b;
  empty = [];
  reserve = λ n b. b;
  append = λ xs b. b ++ xs;
  store = λ i v b. set b i v;
  shrink = λ n b. take n b;
  chop = λ n b. drop n b;
  bytes-empty = refl;
  bytes-reserve = λ n b. refl;
  bytes-append = λ xs b. refl;
  bytes-store = λ i v b. refl;
  bytes-shrink = λ n b. refl;
  bytes-chop = λ n b. refl;
}
