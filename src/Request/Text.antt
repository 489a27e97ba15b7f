-- ===== src/Request/Text.antt =====
-- What http/request.cpp and http/utils/headers.cpp call of ac-common and of the standard library on strings.
use cxx_library.Prelude.{ℕ, Option, List}

pub record Text : Type 0 where
  -- `NStringUtils::FromString<size_t>`; `none` is an exception.
  pub from_string : List ℕ → Option ℕ
  -- `std::to_string` of a `size_t`
  pub to_string : ℕ → List ℕ
  -- `NStringUtils::Strip` and `ToLower`
  pub strip : List ℕ → List ℕ
  pub to_lower : List ℕ → List ℕ
