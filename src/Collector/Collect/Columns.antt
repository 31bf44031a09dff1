-- ===== src/Collector/Collect/Columns.antt =====
-- collector.go: reading a row does not panic.
use visus.Prelude.{
  ℕ, String, ◌≡◌, refl, ap, sym, ◌∙◌, subst, Option, none, some, List, [], ◌∷◌, ◌<◌, string_eq,
  nat_eq, length,
}
use visus.Dict.{lookup}
use visus.External.Prometheus.{Prometheus}
use visus.External.Lru.{Lru}
use visus.External.Database.{Database}
use visus.Collector.Types.{Collector, Metric, CacheKey, CacheValue}
use visus.Collector.Values.{Value, Session, Series}
use visus.Collector.Collect.{measure, place, column, columns}
use visus.Collector.Collect.Vectors.{VectorLaws, Wide}
use visus.Collector.Collect.Running.{IsRunning, Safe, continue-Safe}
use visus.Collector.Collect.Cells.{CellFits, RowFits, fill-ok, measure-Safe}

module _ (p : Prometheus) (l : Lru CacheKey (CacheValue p)) (d : Database (Value p))
    (laws : VectorLaws p) (c : Collector p l) where
  module _ (n : ℕ) (ranged : (f : String) (i : ℕ) → lookup f c.label_map ≡ some i → i < n)
      (wide : Wide laws n c.metrics) where
    abbrev Full : List String × Series → Type 0
    Full (labels, curr) = length labels ≡ n

    place-Safe :
        (f : String) (v : Value p) (final labels : List String) (curr : Series) (o : Option ℕ)
        (m : Option (Metric p)) (s : Session p l d)
        → length labels ≡ n
        → CellFits p l d laws c f v
        → IsRunning p l d laws c s
        → ((i : ℕ) → o ≡ some i → i < n)
        → lookup f c.metrics ≡ m
        → Safe p l d laws c Full (place p l d f v final (labels, curr) o m s)
    unfolding place
    place-Safe f v final labels curr (some i) m s h fits r in_range q =
        let (ks, k, z) =
          fill-ok p l d laws c i v labels (subst (λ x. i < x) (sym h) (in_range i refl)) in
        rw k (z ∙ h, r)
    place-Safe f v final labels curr none none s h fits r in_range q = (h, r)
    place-Safe f v final labels curr none (some m) s h fits r in_range q =
        let a = measure p l d f m v final labels curr s in
        continue-Safe p l d laws c (λ _. Unit {0}) Full a.0 _ a.1
          (measure-Safe p l d laws c f m v final labels curr s q (h ∙ sym (wide f m q)) fits r)
          (λ _ _ r. (h, r))

    column-Safe :
        (f : String) (v : Value p) (final labels : List String) (curr : Series) (s : Session p l d)
        → length labels ≡ n
        → CellFits p l d laws c f v
        → IsRunning p l d laws c s
        → Safe p l d laws c Full (column p l d f v final (labels, curr) s)
    unfolding column
    column-Safe f v final labels curr s h fits r =
        place-Safe f v final labels curr (lookup f s.collector.label_map)
          (lookup f s.collector.metrics) s h fits r
          (λ i e. ranged f i (sym (ap (lookup f) r.label_map) ∙ e)) (sym (ap (lookup f) r.metrics))

    pub columns-Safe :
        (fs : List String) (vs : List (Value p)) (final labels : List String) (curr : Series)
        (s : Session p l d)
        → length labels ≡ n
        → RowFits p l d laws c fs vs
        → IsRunning p l d laws c s
        → Safe p l d laws c (λ _. Unit {0}) (columns p l d fs vs final (labels, curr) s)
    unfolding columns
    columns-Safe [] [] final labels curr s h fits r = (tt, r)
    columns-Safe (f ∷ fs) [] final labels curr s h fits r = (tt, r)
    columns-Safe [] (v ∷ vs) final labels curr s h fits r = absurd fits
    columns-Safe (f ∷ fs) (v ∷ vs) final labels curr s h fits r =
        let a = column p l d f v final (labels, curr) s in
        continue-Safe p l d laws c Full (λ _. Unit {0}) a.0 _ a.1
          (column-Safe f v final labels curr s h fits.0 r)
          (λ x full r. columns-Safe fs vs final x.0 x.1 a.1 full fits.1 r)
