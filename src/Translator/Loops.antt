-- ===== src/Translator/Loops.antt =====
-- bucket.go: a loop of `addLog10Buckets` that does not end.
use visus.Prelude.{
  ℕ, zero, suc, ℤ, pos, ◌+ℤ◌, ◌≡◌, refl, ap, Bool, true, false, List, ◌++◌, Option, none,
  if◌then◌else◌,
}
use visus.External.Float.{Float}
use visus.Translator.Bucket.{
  Bucket, Log10Bucket, next_bound, next_bin, run_bins, add_log10_buckets, decade,
}

module _ (p : Float) where
  module _ (test : p.F → Bool) (emit : p.F → List (Bucket p)) where
    -- A bound that does not move keeps the loop running.
    run_bins-stuck :
        (fuel : ℕ) (b : Log10Bucket p) (out : List (Bucket p))
        → test b.curr ≡ true
        → next_bound p b.bin_nums b.curr ≡ b.curr
        → run_bins p fuel test emit b out ≡ none
    unfolding run_bins
    run_bins-stuck zero b out h k = rw h refl
    run_bins-stuck (suc fuel) b out h k = rw h (
        run_bins-stuck fuel (next_bin p b) (out ++ emit b.curr) (rw k h)
          (ap (next_bound p b.bin_nums) k))

  same_if : (c : Bool) (x : p.F) → (if c then x else x) ≡ x
  same_if true x = refl
  same_if false x = refl

  next_bound-zero :
      (bins : ℤ) (z : p.F)
      → p.pow10 (decade p z +ℤ pos 1) ≡ z
      → p.div z (p.of_int bins) ≡ z
      → p.add z z ≡ z
      → next_bound p bins z ≡ z
  unfolding next_bound
  next_bound-zero bins z m w a = rw (m, w, a, same_if _ z, same_if _ z) refl

  -- The loop for the bucket without an upper bound never ends for a zero, whose decade has the power
  -- zero, as it has in Go: zero over the number of bins, and zero and zero, are zero.
  pub add_log10_buckets-diverges :
      (zero_f : p.F) (fuel : ℕ) (cur : Bucket p) (prev : Option (Bucket p)) (b : Log10Bucket p)
      (out : List (Bucket p))
      → p.is_inf cur.upper_bound ≡ true
      → b.curr ≡ zero_f
      → p.lt zero_f b.max ≡ true
      → p.pow10 (decade p zero_f +ℤ pos 1) ≡ zero_f
      → p.div zero_f (p.of_int b.bin_nums) ≡ zero_f
      → p.add zero_f zero_f ≡ zero_f
      → add_log10_buckets p fuel cur prev b out ≡ none
  unfolding add_log10_buckets next_bound
  add_log10_buckets-diverges z fuel cur prev b out i c l m w a =
      let still : next_bound p b.bin_nums b.curr ≡ b.curr =
        rw c (next_bound-zero b.bin_nums z m w a) in
      rw (i, run_bins-stuck (λ x. p.lt x b.max) _ fuel b out (rw c l) still) refl
