-- ===== src/Translator/Sample.antt =====
-- Whole numbers for float64 numbers, for examples.
use visus.Prelude.{
  ℕ, ◌+◌, ◌-◌, ◌*◌, ◌/◌, ◌^◌, ℤ, pos, negsuc, if◌then◌else◌, ltb, leb, ◌==◌, nat_eq,
}
use visus.External.Float.{Float}

abbrev pub magnitude : ℤ → ℕ
magnitude (pos n) = n
magnitude (negsuc n) = 0

-- Quotients are rounded down, and 10000 stands for infinity; ten to a power below zero is 0.
abbrev pub log10_of : ℕ → ℕ
log10_of x = if ltb x 10 then 0 else if ltb x 100 then 1 else 2

abbrev pub pow10_of : ℤ → ℕ
pow10_of (pos n) = 10 ^ n
pow10_of (negsuc n) = 0

abbrev pub whole : Float
whole = record {
  F = ℕ;
  of_int = magnitude;
  of_uint = λ n. n;
  to_uint = λ x. x;
  to_int = λ x. pos x;
  add = λ x y. x + y;
  sub = λ x y. x - y;
  mul = λ x y. x * y;
  div = λ x y. x / y;
  lt = ltb;
  le = leb;
  floor = λ x. x;
  ceil = λ x. x;
  log10 = log10_of;
  pow10 = pow10_of;
  is_inf = λ x. x == 10_000;
}
