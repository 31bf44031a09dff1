-- ===== src/Translator/Examples.antt =====
-- bucket.go over whole numbers up to a thousand, for float64 numbers.
use visus.Prelude.{pos, negsuc, ◌≡◌, refl, [], ◌∷◌, none, some, if◌then◌else◌, arith, nat_eq, ◌==◌}
use visus.External.Float.{Float}
use visus.Translator.Sample.{log10_of, whole}
use visus.Translator.Bucket.{Bucket, Log10Bucket, next_bound, run_bins, add_log10_buckets}
use visus.Translator.Exact.{add_log10_buckets-exact}
use visus.Translator.Loops.{add_log10_buckets-diverges}

abbrev start : Log10Bucket whole
start = record { bin_nums = pos 10; curr = 10; max = 100 }

abbrev infinite : Bucket whole
infinite = record { upper_bound = 10_000; cumulative_count = 7 }

-- From 20 to 40 in steps of ten, in a bucket with six more than the one that ends at 10.
add_log10_buckets-exact_example :
    add_log10_buckets whole 5
      (record { upper_bound = 40; cumulative_count = 10 })
      (some (record { upper_bound = 10; cumulative_count = 4 }))
      (record start { curr = 20 })
      []
    ≡ some (
      record start { curr = 40 },
      record { upper_bound = 20; cumulative_count = 6 }
          ∷ record { upper_bound = 30; cumulative_count = 8 }
          ∷ [],
    )
unfolding next_bound
add_log10_buckets-exact_example =
    add_log10_buckets-exact whole 2 5 (record { upper_bound = 40; cumulative_count = 10 })
      (some (record { upper_bound = 10; cumulative_count = 4 })) (record start { curr = 20 }) []
      (refl, (refl, refl)) (omega arith)

-- The bucket without an upper bound has its count at every new bound, and at the maximum.
to_the_end :
    add_log10_buckets whole 2 infinite none (record start { curr = 80 }) []
    ≡ some (
      record start { curr = 100 },
      record { upper_bound = 80; cumulative_count = 7 }
          ∷ record { upper_bound = 90; cumulative_count = 7 }
          ∷ record { upper_bound = 100; cumulative_count = 7 }
          ∷ [],
    )
unfolding add_log10_buckets run_bins next_bound
to_the_end = refl

-- The power of ten below the decade of zero is zero.
abbrev with_zero : Float
with_zero = record whole {
  log10 = λ x. if x == 0 then 5_000 else log10_of x;
  to_int = λ x. if x == 5_000 then negsuc 400 else pos x;
}

add_log10_buckets-diverges_example :
    add_log10_buckets with_zero 50
      (record { upper_bound = 10_000; cumulative_count = 7 })
      none
      (record { bin_nums = pos 10; curr = 0; max = 100 })
      []
    ≡ none
add_log10_buckets-diverges_example =
    add_log10_buckets-diverges with_zero 0 50
      (record { upper_bound = 10_000; cumulative_count = 7 }) none
      (record { bin_nums = pos 10; curr = 0; max = 100 }) [] refl refl refl refl refl refl
