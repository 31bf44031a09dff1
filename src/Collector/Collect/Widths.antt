-- ===== src/Collector/Collect/Widths.antt =====
-- collector.go: the vectors that `FromCollection` makes have a place for every label.
use visus.Prelude.{
  ℕ, String, ◌≡◌, refl, ◌∙◌, subst, Option, none, some, List, [], ◌∷◌, string_eq, ◌==◌, arith,
  Bool-cases, inl, inr, length,
}
use visus.Result.{ok}
use visus.Dict.{Dict, insert, lookup-insert, lookup-nil}
use visus.Store.Types
use visus.Store.Types.{Collection}
use visus.External.Prometheus.{Prometheus}
use visus.External.Lru.{Lru}
use visus.Collector.Types.{Collector, Metric, CacheKey, CacheValue, get_all_labels}
use visus.Collector.Build.{
  enter_metric, suc_ℤ, add_counter, add_gauge, add_metric, add_metrics, from_collection, bare,
}
use visus.Collector.Collect.Vectors.{VectorLaws, Wide, width}

module _ {p : Prometheus} (laws : VectorLaws p) where
  insert-Wide :
      (n : ℕ) (name : String) (m : Metric p) (d : Dict String (Metric p))
      → width laws m.vec ≡ n
      → Wide laws n d
      → Wide laws n (insert name m d)
  insert-Wide n name m d h w f x q = elim (Bool-cases (name == f)) [
    | inl e ↦
        let y : m ≡ x = ground (arith, lookup-insert name f m d) in
        subst {A = Metric p} (λ y. width laws y.vec ≡ n) y h
    | inr e ↦ w f x (ground (arith, lookup-insert name f m d))
  ]

module _ {p : Prometheus} {l : Lru CacheKey (CacheValue p)} (laws : VectorLaws p) where
  -- The labels of a collector and a width of its vectors.
  abbrev pub Made : ℕ → Collector p l → Type 0
  Made n c = (length (get_all_labels c) ≡ n) × Wide laws n c.metrics

  enter_metric-Made :
      (n : ℕ) (m : Metric p) (o : Option String) (c : Collector p l) (w : p.World)
      → width laws m.vec ≡ n
      → Made n c
      → Made n (enter_metric p l m o c w).1
  unfolding enter_metric get_all_labels
  enter_metric-Made n m (some e) c w z h = h
  enter_metric-Made n m none c w z h = (h.0, insert-Wide laws n m.name m c.metrics z h.1)

  add_counter-Made :
      (n : ℕ) (name help : String) (c : Collector p l) (w : p.World)
      → Made n c
      → Made n (add_counter p l name help c w).1
  unfolding add_counter get_all_labels
  add_counter-Made n name help c w h =
      enter_metric-Made n _ _ (record c { counters_cardinality = suc_ℤ c.counters_cardinality }) _
        (laws.new_counter _ help (get_all_labels c) w ∙ h.0) h

  add_gauge-Made :
      (n : ℕ) (name help : String) (c : Collector p l) (w : p.World)
      → Made n c
      → Made n (add_gauge p l name help c w).1
  unfolding add_gauge get_all_labels
  add_gauge-Made n name help c w h =
      enter_metric-Made n _ _ c _ (laws.new_gauge _ help (get_all_labels c) w ∙ h.0) h

  add_metric-Made :
      (n : ℕ) (m : Types.Metric) (c : Collector p l) (w : p.World)
      → Made n c
      → Made n (add_metric p l m c w).1
  unfolding add_metric
  add_metric-Made n m c w h = elim (Bool-cases (m.kind == Types.gauge)) [
    | inl q ↦ rw q (add_gauge-Made n m.name m.help c w h)
    | inr q ↦ elim (Bool-cases (m.kind == Types.counter)) [
      | inl r ↦ rw (q, r) (add_counter-Made n m.name m.help c w h)
      | inr r ↦ rw (q, r) h
    ]
  ]

  add_metrics-Made :
      (n : ℕ) (ms : List Types.Metric) (c c' : Collector p l) (w : p.World)
      → Made n c
      → (add_metrics p l ms c w).0 ≡ ok c'
      → Made n c'
  unfolding add_metrics
  add_metrics-Made n [] c c' w h q = subst (Made n) (cc) h
  add_metrics-Made n (m ∷ ms) c c' w h q =
      add_metrics-Made n ms (add_metric p l m c w).1 c' (add_metric p l m c w).2
        (add_metric-Made n m c w h) (ground arith)

  pub from_collection-Made :
      (coll : Collection) (c : Collector p l) (w : p.World)
      → (from_collection p l coll w).0 ≡ ok c
      → Made (length (get_all_labels (bare p l coll))) c
  unfolding from_collection
  from_collection-Made coll c w q =
      add_metrics-Made _ coll.metrics (bare p l coll) c w
        (refl, λ f m e. cc (lookup-nil {V = Metric p} f)) q
