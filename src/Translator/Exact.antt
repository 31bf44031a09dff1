-- ===== src/Translator/Exact.antt =====
-- bucket.go: what `addLog10Buckets` adds, once it is known how many bounds its loop takes.
use visus.Prelude.{
  ℕ, zero, suc, ◌≤◌, ℤ, ◌≡◌, refl, sym, ap, ◌∙◌, Bool, true, false, ◌&&◌, List, [], ◌∷◌, ◌++◌, map,
  Option, none, some, if◌then◌else◌, arith, Bool-cases, inl, inr,
}
use mathlib.Core.List.{append-nil, append_assoc}
use visus.External.Float.{Float}
use visus.Translator.Bucket.{
  Bucket, Log10Bucket, next_bound, next_bin, run_bins, add_log10_buckets, inside, finite_bins,
  sub_64,
}

module _ (p : Float) where
  -- The bound after `n` steps, and the `n` bounds before it.
  abbrev pub bound : ℤ → ℕ → p.F → p.F
  bound bins zero x = x
  bound bins (suc n) x = bound bins n (next_bound p bins x)

  abbrev pub bounds : ℤ → ℕ → p.F → List p.F
  bounds bins zero x = []
  bounds bins (suc n) x = x ∷ bounds bins n (next_bound p bins x)

  -- The first bound that fails the test is the one after `n` steps.
  abbrev pub Stops : (p.F → Bool) → ℤ → ℕ → p.F → Type 0
  Stops test bins zero x = test x ≡ false
  Stops test bins (suc n) x = (test x ≡ true) × Stops test bins n (next_bound p bins x)

  -- Whether the loop for the bucket goes on at a bound: it is below the maximum, or else below the
  -- bucket's and not above the maximum.
  abbrev pub goes_on : Bucket p → p.F → p.F → Bool
  goes_on cur max x =
      if p.is_inf cur.upper_bound then p.lt x max else p.lt x cur.upper_bound && p.le x max

  -- The bucket that starts at `ple` with `pcount` has its count evenly spread.
  abbrev pub spread : Bucket p → p.F → ℕ → p.F → Bucket p
  spread cur ple pcount x =
      let part =
        p.div (p.mul (p.of_uint (sub_64 cur.cumulative_count pcount)) (p.sub cur.upper_bound x))
          (p.sub cur.upper_bound ple) in
      record {
        upper_bound = x;
        cumulative_count = sub_64 cur.cumulative_count (p.to_uint (p.floor part));
      }

  abbrev pub undivided : Bucket p → p.F → Bucket p
  undivided cur x = record { upper_bound = x; cumulative_count = cur.cumulative_count }

  -- The buckets for a finite one: none, if it is the first of its histogram and the bound is below it.
  abbrev pub finite_buckets : Bucket p → Option (Bucket p) → p.F → List p.F → List (Bucket p)
  finite_buckets cur none x xs =
      if p.lt x cur.upper_bound then [] else map (spread cur (p.of_uint 0) 0) xs
  finite_buckets cur (some prev) x xs = map (spread cur prev.upper_bound prev.cumulative_count) xs

  -- The new buckets at the bounds `xs` from `x` on, where `last` is the next one.
  abbrev pub new_buckets : Bucket p → Option (Bucket p) → p.F → List p.F → p.F → List (Bucket p)
  new_buckets cur prev x xs last =
      if p.is_inf cur.upper_bound
      then map (undivided cur) xs ++ (undivided cur last ∷ [])
      else finite_buckets cur prev x xs

  abbrev at_bound : ℕ → Log10Bucket p → Log10Bucket p
  at_bound n b = record b { curr = bound b.bin_nums n b.curr }

  Stops-ext :
      (test test' : p.F → Bool) (bins : ℤ) (n : ℕ) (x : p.F)
      → ((x : p.F) → test' x ≡ test x)
      → Stops test bins n x
      → Stops test' bins n x
  Stops-ext test test' bins zero x e h = e x ∙ h
  Stops-ext test test' bins (suc n) x e h =
      (e x ∙ h.0, Stops-ext test test' bins n (next_bound p bins x) e h.1)

  run_bins-Stops :
      (test : p.F → Bool) (f : p.F → Bucket p) (n fuel : ℕ) (b : Log10Bucket p)
      (out : List (Bucket p))
      → Stops test b.bin_nums n b.curr
      → n ≤ fuel
      → run_bins p fuel test (λ x. f x ∷ []) b out
        ≡ some (at_bound n b, out ++ map f (bounds b.bin_nums n b.curr))
  unfolding run_bins
  run_bins-Stops test f zero zero b out h k = rw (h, append-nil out) refl
  run_bins-Stops test f zero (suc fuel) b out h k = rw (h, append-nil out) refl
  run_bins-Stops test f (suc n) zero b out h k = let z : ⊥ = omega arith in absurd z
  run_bins-Stops test f (suc n) (suc fuel) b out h k = rw h.0 (
      run_bins-Stops test f n fuel (next_bin p b) (out ++ (f b.curr ∷ [])) h.1 (omega arith)
      ∙ ap (λ o. some (at_bound (suc n) b, o))
          (append_assoc out (f b.curr ∷ [])
            (map f (bounds b.bin_nums n (next_bound p b.bin_nums b.curr)))))

  -- The loop that adds nothing.
  run_bins-skips :
      (test : p.F → Bool) (n fuel : ℕ) (b : Log10Bucket p) (out : List (Bucket p))
      → Stops test b.bin_nums n b.curr
      → n ≤ fuel
      → (o : List (Bucket p)) × (run_bins p fuel test (λ x. []) b out ≡ some (at_bound n b, o))
  unfolding run_bins
  run_bins-skips test zero zero b out h k = (out, rw h refl)
  run_bins-skips test zero (suc fuel) b out h k = (out, rw h refl)
  run_bins-skips test (suc n) zero b out h k = let z : ⊥ = omega arith in absurd z
  run_bins-skips test (suc n) (suc fuel) b out h k =
      let (o, e) = run_bins-skips test n fuel (next_bin p b) (out ++ []) h.1 (omega arith) in
      (o, rw h.0 e)

  -- If the bound after some steps is the first at which the loop for a bucket stops, as many steps are
  -- enough fuel: `addLog10Buckets` ends at that bound. To the buckets that it was given it adds one for
  -- each bound before it: for a bucket without an upper bound these have its count, and so has a last
  -- one at the end; for another one its count is spread evenly from the end of the bucket before it;
  -- and for the first bucket, none if the first bound is below it.
  pub add_log10_buckets-exact :
      (n fuel : ℕ) (cur : Bucket p) (prev : Option (Bucket p)) (b : Log10Bucket p)
      (out : List (Bucket p))
      → Stops (goes_on cur b.max) b.bin_nums n b.curr
      → n ≤ fuel
      → add_log10_buckets p fuel cur prev b out
        ≡ some (
          record b { curr = bound b.bin_nums n b.curr },
          out
              ++ new_buckets cur prev b.curr
                  (bounds b.bin_nums n b.curr)
                  (bound b.bin_nums n b.curr),
        )
  unfolding add_log10_buckets
  add_log10_buckets-exact n fuel cur prev b out h k = elim (Bool-cases (p.is_inf cur.upper_bound)) [
    | inl q ↦
        let go =
          run_bins-Stops (λ x. p.lt x b.max) (undivided cur) n fuel b out
            (Stops-ext (goes_on cur b.max) _ b.bin_nums n b.curr (λ x. rw q refl) h) k in
        rw (q, go)
          (ap (λ o. some (at_bound n b, o))
            (append_assoc out (map (undivided cur) (bounds b.bin_nums n b.curr))
              (undivided cur (bound b.bin_nums n b.curr) ∷ [])))
    | inr q ↦
        rw q (finite prev (Stops-ext (goes_on cur b.max) _ b.bin_nums n b.curr (λ x. rw q refl) h))
  ]
    where
      finite :
          (prev : Option (Bucket p))
          → Stops (inside p cur.upper_bound b.max) b.bin_nums n b.curr
          → finite_bins p fuel cur prev b out
            ≡ some
                (at_bound n b, out ++ finite_buckets cur prev b.curr (bounds b.bin_nums n b.curr))
      finite none h = elim (Bool-cases (p.lt b.curr cur.upper_bound)) [
        | inl q ↦
            let (o, e) = run_bins-skips (inside p cur.upper_bound b.max) n fuel b out h k in
            rw (q, e) (ap (λ o. some (at_bound n b, o)) (sym (append-nil out)))
        | inr q ↦ rw q (
            run_bins-Stops (inside p cur.upper_bound b.max) (spread cur (p.of_uint 0) 0) n fuel b
              out h k)
      ]
      finite (some prev) h =
          run_bins-Stops (inside p cur.upper_bound b.max)
            (spread cur prev.upper_bound prev.cumulative_count) n fuel b out h k
