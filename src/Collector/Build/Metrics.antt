-- ===== src/Collector/Build/Metrics.antt =====
-- collector.go: what `FromCollection` builds.
use text.Mathlib.TextEquality.{eq_iff}
use visus.Prelude.{
  ℕ, suc, ◌+◌, String, ◌≡◌, refl, Bool, true, false, Option, none, some, List, [], ◌∷◌, ◌||◌, ◌==◌,
  string_eq, if◌then◌else◌, arith, pos,
}
use visus.Result.{ok}
use visus.Dict.{lookup, lookup-insert}
use visus.Store.Types
use visus.Store.Types.{Collection}
use visus.External.Prometheus.{Prometheus}
use visus.External.Lru.{Lru}
use visus.Collector.Types.{
  Collector, Metric, MetricKind, counter_vec, gauge_vec, CacheKey, CacheValue,
}
use visus.Collector.Build.{add_metric, add_metrics, from_collection, bare, suc_ℤ}

-- The metrics of a collection whose kind is known, and how many of them are counters.
abbrev pub known : Types.Metric → Bool
known m = m.kind == Types.gauge || m.kind == Types.counter

abbrev pub all_known : List Types.Metric → Bool
all_known [] = true
all_known (m ∷ ms) = if known m then all_known ms else false

abbrev pub counters : List Types.Metric → ℕ
counters [] = 0
counters (m ∷ ms) = if m.kind == Types.counter then suc (counters ms) else counters ms

abbrev pub names_of : List Types.Metric → List String
names_of [] = []
names_of (m ∷ ms) = m.name ∷ names_of ms

-- The kind under which the last metric of a name is listed.
abbrev pub kind_of : String → List Types.Metric → Option MetricKind → Option MetricKind
kind_of k [] o = o
kind_of k (m ∷ ms) o = kind_of k ms (
    if m.name == k
    then some (if m.kind == Types.gauge then MetricKind.gauge else MetricKind.counter)
    else o)

kinds_differ : (k : String) → (k == Types.gauge) ≡ true → (k == Types.counter) ≡ false
kinds_differ k h = rw ((eq_iff k Types.gauge).0 h)

module _ (p : Prometheus) (l : Lru CacheKey (CacheValue p)) where
  -- A metric with the vector of its kind.
  abbrev pub kind_in : Option (Metric p) → Option MetricKind
  kind_in none = none
  kind_in (some m) = elim m.vec [
    | counter_vec _ ↦ some MetricKind.counter
    | gauge_vec _ ↦ some MetricKind.gauge
  ]

  -- The parts of a collector that come from the collection alone.
  pub record Same (c c' : Collector p l) : Type 0 where
    pub name : c'.name ≡ c.name
    pub databases : c'.databases ≡ c.databases
    pub frequency : c'.frequency ≡ c.frequency
    pub labels : c'.labels ≡ c.labels
    pub label_map : c'.label_map ≡ c.label_map
    pub last_modified : c'.last_modified ≡ c.last_modified
    pub max_results : c'.max_results ≡ c.max_results
    pub query : c'.query ≡ c.query

  pub record Adds (m : Types.Metric) (c c' : Collector p l) : Type 0 where
    pub same : Same c c'
    pub is_known : known m ≡ true
    pub counted :
        c'.counters_cardinality
        ≡ (if m.kind == Types.counter then suc_ℤ c.counters_cardinality else c.counters_cardinality)
    pub metrics :
        (k : String)
        → kind_in (lookup k c'.metrics) ≡ kind_of k (m ∷ []) (kind_in (lookup k c.metrics))

  add_metric-Adds :
      (m : Types.Metric) (c : Collector p l) (w : p.World)
      → (add_metric p l m c w).0 ≡ ok tt
      → Adds m c (add_metric p l m c w).1
  unfolding add_metric
  add_metric-Adds m c w h = record {
    same = ground arith;
    is_known = ground arith;
    counted = ground (arith, kinds_differ m.kind);
    metrics = λ k. grind (arith, lookup-insert);
  }

  pub record Builds (n : ℕ) (ms : List Types.Metric) (c c' : Collector p l) : Type 0 where
    pub same : Same c c'
    pub all_known : all_known ms ≡ true
    pub counted : c'.counters_cardinality ≡ pos (n + counters ms)
    pub metrics :
        (k : String) → kind_in (lookup k c'.metrics) ≡ kind_of k ms (kind_in (lookup k c.metrics))

  add_metrics-Builds :
      (n : ℕ) (ms : List Types.Metric) (c c' : Collector p l) (w : p.World)
      → c.counters_cardinality ≡ pos n
      → (add_metrics p l ms c w).0 ≡ ok c'
      → Builds n ms c c'
  unfolding add_metrics
  add_metrics-Builds n [] c c' w q h = record {
    same = ground arith;
    all_known = refl;
    counted = ground arith;
    metrics = λ k. ground arith;
  }
  add_metrics-Builds n (m ∷ ms) c c' w q h =
      let a = add_metric-Adds m c w (ground arith) in
      let ih =
        add_metrics-Builds (if m.kind == Types.counter then suc n else n) ms
          (add_metric p l m c w).1 c' (add_metric p l m c w).2 (ground (arith, a.counted))
          (ground arith) in
      record {
        same = ground (arith, a.same, ih.same);
        all_known = ground (arith, a.is_known, ih.all_known);
        counted = ground (arith, ih.counted);
        metrics = λ k. ground (arith, a.metrics k, ih.metrics k);
      }

  -- If `FromCollection` succeeds, every metric of the collection has a known kind, the collector has
  -- the settings of the bare one, it counts as many counters as the collection lists, and it has a
  -- vector for exactly the listed names, each of the kind under which the name is listed last.
  pub from_collection-Builds :
      (coll : Collection) (c : Collector p l) (w : p.World)
      → (from_collection p l coll w).0 ≡ ok c
      → Builds 0 coll.metrics (bare p l coll) c
  unfolding from_collection
  from_collection-Builds coll c w h = add_metrics-Builds 0 coll.metrics (bare p l coll) c w refl h
