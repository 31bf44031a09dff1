-- ===== src/Translator/Translate.antt =====
-- internal/translator/translator.go: `Translate` and `translate`. A loop of bucket.go that does not end
-- appends buckets until the memory is used up, which is a panic here.
use visus.Prelude.{
  ℕ, String, Bool, true, false, not, ◌&&◌, List, [], ◌∷◌, Option, none, some, if◌then◌else◌, ltb,
  leb, length, ℤ, pos, negsuc, ◌+ℤ◌, ◌*ℤ◌, wrap_64,
}
use visus.Result.{Result, Op, ok, panic, chain, lift, pure, ◌>>=◌, ◌>>◌}
use visus.External.Float.{Float}
use visus.Translator.Bucket.{Bucket, Log10Bucket, create_log10_bucket, add_log10_buckets}
use visus.Translator.Load.{Translator}

-- `dto.MetricFamily`: its name, whether it is of histograms, and the buckets of each metric. What else
-- it has is not looked at.
pub record MetricFamily (p : Float) (Other : Type 0) : Type 0 where
  pub name : String
  pub is_histogram : Bool
  pub buckets : List (List (Bucket p))
  pub other : Other

abbrev pub is_positive : ℤ → Bool
is_positive (pos n) = ltb 0 n
is_positive (negsuc n) = false

abbrev pub is_negative : ℤ → Bool
is_negative (pos n) = false
is_negative (negsuc n) = true

module _ (p : Float) where
  -- The largest finite bound, if it is above zero.
  abbrev pub largest : p.F → List (Bucket p) → p.F
  largest max [] = max
  largest max (b ∷ bs) =
      largest
        (if not (p.is_inf b.upper_bound) && p.lt max b.upper_bound then b.upper_bound else max) bs

  abbrev pub max_of : ℤ → List (Bucket p) → p.F
  max_of end bs =
      if not (leb 2 (length bs))
      then p.of_uint 0
      else if is_positive end
      then p.of_int end
      else largest (p.of_uint 0) bs

  -- The capacity of the new slice, an int.
  abbrev pub required_buckets : ℤ → p.F → List (Bucket p) → ℤ
  required_buckets bins max bs =
      if leb 2 (length bs)
      then wrap_64 (pos 1 +ℤ wrap_64 (p.to_int (p.ceil (p.log10 max)) *ℤ bins))
      else pos 1

  abbrev pub or_panic : {A : Type 0} → Option A → Result A
  or_panic none = panic
  or_panic (some a) = ok a

  unfoldable pub add_all :
      ℕ
      → List (Bucket p)
      → Option (Bucket p)
      → Log10Bucket p
      → List (Bucket p)
      → Result (List (Bucket p))
  add_all fuel [] prev b out = ok out
  add_all fuel (cur ∷ rest) prev b out =
      chain (or_panic (add_log10_buckets p fuel cur prev b out))
        (λ next. add_all fuel rest (some cur) next.0 next.1)

  -- `make` panics for a negative capacity.
  unfoldable pub translate_metric : ℕ → Translator → List (Bucket p) → Result (List (Bucket p))
  unfolding add_all
  translate_metric fuel t bs =
      let h = t.histogram in
      let max = max_of h.end bs in
      if is_negative (required_buckets h.bins max bs)
      then panic
      else add_all fuel bs none (create_log10_bucket p (p.of_int h.start) max h.bins) []

  unfoldable pub translate_metrics :
      ℕ → Translator → List (List (Bucket p)) → Result (List (List (Bucket p)))
  unfolding translate_metric
  translate_metrics fuel t [] = ok []
  translate_metrics fuel t (m ∷ ms) =
      chain (translate_metric fuel t m)
        (λ n. chain (translate_metrics fuel t ms) (λ ns. ok (n ∷ ns)))

  module _ {Other Out : Type 0} (to_text : MetricFamily p Other → Op Out (Unit {0})) where
    -- The family is changed in place, and then written.
    unfoldable pub translate : ℕ → Translator → MetricFamily p Other → Op Out (MetricFamily p Other)
    unfolding translate_metrics
    translate fuel t mf =
        if mf.is_histogram && t.include.matches mf.name
        then (do
          bs ← lift (translate_metrics fuel t mf.buckets)
          let changed : MetricFamily p Other = record mf { buckets = bs }
          to_text changed
          pure changed)
        else pure mf
