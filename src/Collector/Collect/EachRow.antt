-- ===== src/Collector/Collect/EachRow.antt =====
-- collector.go: the loop over the rows does not panic.
use visus.Prelude.{
  ℕ, String, ◌≡◌, ap, sym, ◌∙◌, subst, false, some, List, [], ◌∷◌, ◌<◌, string_eq, nat_eq, ◌==◌,
  arith, All, length,
}
use visus.Result.{Result, ok, err, panic}
use visus.Dict.{lookup}
use visus.External.Prometheus.{Prometheus}
use visus.External.Lru.{Lru}
use visus.External.Database.{Database}
use visus.Collector.Types.{Collector, CacheKey, CacheValue, get_all_labels}
use visus.Collector.Values.{Value, Session, Series}
use visus.Collector.Collect.{row, each_row}
use visus.Collector.Collect.Vectors.{VectorLaws, Wide}
use visus.Collector.Collect.Running.{IsRunning, Safe, continue-Safe}
use visus.Collector.Collect.Cells.{Fits, RowFits, start_labels-ok}
use visus.Collector.Collect.Columns.{columns-Safe}
use visus.Collector.Collect.Labels.{all_labels-bounds, all_labels-eq}

module _ (p : Prometheus) (l : Lru CacheKey (CacheValue p)) (d : Database (Value p))
    (laws : VectorLaws p) (c : Collector p l)
    (ranged : (f : String) (i : ℕ) → lookup f c.label_map ≡ some i → i < length c.labels)
    (wide : Wide laws (length (get_all_labels c)) c.metrics) where
  abbrev pub Fine : {A : Type 0} → Result A × Session p l d → Type 0
  Fine = Safe p l d laws c (λ _. Unit {0})

  abbrev pub Running : Session p l d → Type 0
  Running = IsRunning p l d laws c

  pub row-Safe :
      (db : String) (fs : List String) (vs : List (Value p)) (curr : Series) (s : Session p l d)
      → ((db == "") ≡ false → (c.databases == "") ≡ false)
      → RowFits p l d laws c fs vs
      → Running s
      → Fine (row p l d db fs vs curr s)
  unfolding row get_all_labels
  row-Safe db fs vs curr s h fits r =
      let (le, many) = all_labels-bounds c in
      let same = all_labels-eq s.collector c r.labels r.databases in
      let (ks, e, z) =
        start_labels-ok p l d laws c db (get_all_labels s.collector)
          (λ q. subst (λ ls. 0 < length ls) (sym same) (many (h q))) in
      let z' = z ∙ ap length same in
      rw e (
        columns-Safe p l d laws c (length (get_all_labels c))
          (λ f i q. omega (arith, ranged f i q, le)) wide fs vs _ ks curr s z' fits r)

  pub each_row-Safe :
      (db : String) (fs : List String) (rows : List (Result (List (Value p)))) (curr : Series)
      (s : Session p l d)
      → ((db == "") ≡ false → (c.databases == "") ≡ false)
      → All (Fits p l d laws c fs) rows
      → Running s
      → Fine (each_row p l d db fs rows curr s)
  unfolding each_row
  each_row-Safe db fs [] curr s h fits r = (tt, r)
  each_row-Safe db fs (ok vs ∷ rows) curr s h fits r =
      let a = row p l d db fs vs curr s in
      continue-Safe p l d laws c (λ _. Unit {0}) (λ _. Unit {0}) a.0 _ a.1
        (row-Safe db fs vs curr s h fits.0 r)
        (λ curr' _ r. each_row-Safe db fs rows curr' a.1 h fits.1 r)
  each_row-Safe db fs (err e ∷ rows) curr s h fits r = each_row-Safe db fs rows curr s h fits.1 r
  each_row-Safe db fs (panic ∷ rows) curr s h fits r = absurd fits.0
