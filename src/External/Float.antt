-- ===== src/External/Float.antt =====
-- float64 numbers with what the package math has of them, and the conversions of Go.
use visus.Prelude.{ℕ, ℤ, Bool}

pub record Float : Type 1 where
  pub F : Type 0
  pub of_int : ℤ → F
  -- Of a uint64, and to one.
  pub of_uint : ℕ → F
  pub to_uint : F → ℕ
  pub to_int : F → ℤ
  pub add : F → F → F
  pub sub : F → F → F
  pub mul : F → F → F
  pub div : F → F → F
  pub lt : F → F → Bool
  pub le : F → F → Bool
  pub floor : F → F
  pub ceil : F → F
  pub log10 : F → F
  pub pow10 : ℤ → F
  pub is_inf : F → Bool
