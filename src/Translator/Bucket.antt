-- ===== src/Translator/Bucket.antt =====
-- internal/translator/bucket.go. A loop runs on fuel, and `none` stands for one that is still running
-- when that is used up.
use visus.Prelude.{
  ℕ, zero, suc, ◌+◌, ◌-◌, ◌%◌, ◌^◌, ℤ, pos, negsuc, ◌+ℤ◌, ltb, Bool, true, ◌&&◌, List, [], ◌∷◌,
  ◌++◌, Option, none, some, if◌then◌else◌,
}
use visus.External.Float.{Float}

-- `dto.Bucket`; the count is a uint64.
pub record Bucket (p : Float) : Type 0 where
  pub upper_bound : p.F
  pub cumulative_count : ℕ

pub record Log10Bucket (p : Float) : Type 0 where
  pub bin_nums : ℤ
  pub curr : p.F
  pub max : p.F

abbrev pub below_ten : ℤ → Bool
below_ten (pos n) = ltb n 10
below_ten (negsuc n) = true

-- The difference of two uint64s, which wraps around.
abbrev pub sub_64 : ℕ → ℕ → ℕ
sub_64 a b = (a + 2 ^ 64 - b % 2 ^ 64) % 2 ^ 64

module _ (p : Float) where
  abbrev pub create_log10_bucket : p.F → p.F → ℤ → Log10Bucket p
  create_log10_bucket start max bins = record { bin_nums = bins; curr = start; max = max }

  -- `c` in `nextBin`.
  abbrev pub decade : p.F → ℤ
  decade x = p.to_int (p.floor (p.log10 x))

  unfoldable pub next_bound : ℤ → p.F → p.F
  next_bound bins x =
      let c = decade x in
      let m = p.pow10 (c +ℤ pos 1) in
      let width = p.div m (p.of_int bins) in
      let n = if below_ten bins && p.le x (p.pow10 c) then width else p.add x width in
      if p.le n m then n else m

  abbrev pub next_bin : Log10Bucket p → Log10Bucket p
  next_bin b = record b { curr = next_bound b.bin_nums b.curr }

  abbrev pub Bins : Type 0
  Bins = Log10Bucket p × List (Bucket p)

  -- A loop that goes on while the bound passes the test, and appends buckets for it.
  unfoldable pub run_bins :
      ℕ → (p.F → Bool) → (p.F → List (Bucket p)) → Log10Bucket p → List (Bucket p) → Option Bins
  run_bins zero test emit b out = if test b.curr then none else some (b, out)
  run_bins (suc fuel) test emit b out =
      let rest = run_bins fuel test emit (next_bin b) (out ++ emit b.curr) in
      if test b.curr then rest else some (b, out)

  abbrev pub with_last : ℕ → Option Bins → Option Bins
  with_last count none = none
  with_last count (some (b, out)) =
      some (b, out ++ (record { upper_bound = b.curr; cumulative_count = count } ∷ []))

  -- The loops of `addLog10Buckets`: for the bucket without an upper bound, for the first bucket of a
  -- histogram, and for the others. The bound of a bucket is compared and its count is shared out.
  abbrev pub last_bins : ℕ → ℕ → Log10Bucket p → List (Bucket p) → Option Bins
  last_bins fuel count b out = with_last count (
      run_bins fuel (λ x. p.lt x b.max)
        (λ x. record { upper_bound = x; cumulative_count = count } ∷ []) b out)

  abbrev pub inside : p.F → p.F → p.F → Bool
  inside le max x = p.lt x le && p.le x max

  abbrev pub without_new : List (Bucket p) → Option Bins → Option Bins
  without_new out none = none
  without_new out (some (b, out')) = some (b, out)

  abbrev pub skipped_bins : ℕ → p.F → Log10Bucket p → List (Bucket p) → Option Bins
  skipped_bins fuel le b out = without_new out (run_bins fuel (inside le b.max) (λ x. []) b out)

  -- The count of a new bucket inside of an old one, for a uniform distribution.
  abbrev pub shared : p.F → ℕ → p.F → ℕ → p.F → Bucket p
  shared le count ple pcount x =
      let adj =
        p.floor (p.div (p.mul (p.of_uint (sub_64 count pcount)) (p.sub le x)) (p.sub le ple)) in
      record { upper_bound = x; cumulative_count = sub_64 count (p.to_uint adj) }

  abbrev pub shared_bins : ℕ → Bucket p → p.F → ℕ → Log10Bucket p → List (Bucket p) → Option Bins
  shared_bins fuel cur ple pcount b out =
      run_bins fuel (inside cur.upper_bound b.max)
        (λ x. shared cur.upper_bound cur.cumulative_count ple pcount x ∷ []) b out

  abbrev pub finite_bins :
      ℕ → Bucket p → Option (Bucket p) → Log10Bucket p → List (Bucket p) → Option Bins
  finite_bins fuel cur none b out =
      if p.lt b.curr cur.upper_bound
      then skipped_bins fuel cur.upper_bound b out
      else shared_bins fuel cur (p.of_uint 0) 0 b out
  finite_bins fuel cur (some prev) b out =
      shared_bins fuel cur prev.upper_bound prev.cumulative_count b out

  unfoldable pub add_log10_buckets :
      ℕ → Bucket p → Option (Bucket p) → Log10Bucket p → List (Bucket p) → Option Bins
  unfolding run_bins
  add_log10_buckets fuel cur prev b out =
      if p.is_inf cur.upper_bound
      then last_bins fuel cur.cumulative_count b out
      else finite_bins fuel cur prev b out
