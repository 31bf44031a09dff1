-- ===== src/Collector/Build.antt =====
-- internal/collector/collector.go: `FromCollection`, `AddCounter`, `AddGauge` and `Unregister`.
pub mod Metrics
use visus.Prelude.{
  ℕ, suc, ◌+◌, String, ◌≡◌, refl, Bool, true, false, Option, none, some, List, [], ◌∷◌, ◌++◌, ℤ,
  pos, negsuc, neg, quot, ◌==◌, string_eq, if◌then◌else◌, zero,
}
use Prim.Native.String.{◌++◌ as str_append}
use visus.Result.{Result, Op, ok, err, raise, pure, lift, modify, ◌>>=◌, ◌>>◌}
use visus.Dict.{Dict, insert}
use visus.Store.Types
use visus.Store.Types.{Collection}
use visus.External.Prometheus.{Prometheus}
use visus.External.Lru.{Lru}
use visus.Collector.Types.{
  Collector, Metric, MetricKind, Vec, counter_vec, gauge_vec, CacheKey, CacheValue, get_all_labels,
}

-- `labelMap[l] = i` for each label, from index `i` on.
unfoldable pub label_positions : ℕ → List String → Dict String ℕ → Dict String ℕ
label_positions i [] d = d
label_positions i (l ∷ ls) d = label_positions (suc i) ls (insert l i d)

abbrev pub suc_ℤ : ℤ → ℤ
suc_ℤ (pos n) = pos (suc n)
suc_ℤ (negsuc n) = neg n

module _ (p : Prometheus) (l : Lru CacheKey (CacheValue p)) where
  open p use {World}

  -- The end of `AddCounter` and of `AddGauge`, by what `Register` returned.
  unfoldable pub enter_metric :
      Metric p → Option String → Collector p l → World → Result (Unit {0}) × Collector p l × World
  enter_metric m (some e) c w = (err e, c, w)
  enter_metric m none c w = (ok tt, record c { metrics = insert m.name m c.metrics }, w)

  -- A vector is created, whatever was registered under its name is unregistered, and it is
  -- registered. The count of counters has Gone up also if this fails.
  unfoldable pub add_counter :
      String → String → Collector p l → World → Result (Unit {0}) × Collector p l × World
  unfolding enter_metric
  add_counter name help c w =
      let c' : Collector p l = record c { counters_cardinality = suc_ℤ c.counters_cardinality } in
      let metric_name = str_append (str_append c.name "_") name in
      let (vec, w1) = p.new_counter_vec metric_name help (get_all_labels c) w in
      let (_, w2) = p.unregister_counter vec w1 in
      let (failure, w3) = p.register_counter vec w2 in
      enter_metric
        (record { help = help; kind = MetricKind.counter; name = name; vec = counter_vec vec })
        failure c' w3

  unfoldable pub add_gauge :
      String → String → Collector p l → World → Result (Unit {0}) × Collector p l × World
  unfolding enter_metric
  add_gauge name help c w =
      let metric_name = str_append (str_append c.name "_") name in
      let (vec, w1) = p.new_gauge_vec metric_name help (get_all_labels c) w in
      let (_, w2) = p.unregister_gauge vec w1 in
      let (failure, w3) = p.register_gauge vec w2 in
      enter_metric
        (record { help = help; kind = MetricKind.gauge; name = name; vec = gauge_vec vec }) failure
        c w3

  -- The body of the loop of `FromCollection`.
  unfoldable pub add_metric :
      Types.Metric → Collector p l → World → Result (Unit {0}) × Collector p l × World
  unfolding add_counter add_gauge
  add_metric m c w =
      if m.kind == Types.gauge
      then add_gauge m.name m.help c w
      else if m.kind == Types.counter
      then add_counter m.name m.help c w
      else (err "unsupported metric kind", c, w)

  unfoldable pub add_metrics :
      List Types.Metric → Collector p l → World → Result (Collector p l) × World
  add_metrics [] c w = (ok c, w)
  add_metrics (m ∷ ms) c w =
      let (r, c', w') = add_metric m c w in
      let rest = add_metrics ms c' w' in
      elim r [ ok _ ↦ rest | err e ↦ (err e, w') | Result.panic ↦ (Result.panic, w') ]

  abbrev pub bare : Collection → Collector p l
  bare coll = record {
    name = coll.name;
    counters_cache = none;
    counters_cardinality = pos 0;
    databases = coll.databases;
    enabled = true;
    frequency = quot coll.frequency.microseconds 1_000_000;
    gauge_labels = [];
    label_map = label_positions 0 coll.labels [];
    labels = coll.labels;
    last_modified = coll.last_modified.time;
    max_results = coll.max_result;
    metrics = [];
    query = coll.query;
  }

  unfoldable pub from_collection : Collection → Op World (Collector p l)
  unfolding add_metrics
  from_collection coll w = add_metrics coll.metrics (bare coll) w

  -- One metric of the loop of `Unregister`; a failure is only logged.
  abbrev unregister_vec : Vec p → World → World
  unregister_vec (counter_vec v) w = (p.unregister_counter v w).1
  unregister_vec (gauge_vec v) w = (p.unregister_gauge v w).1

  unregister_all : Dict String (Metric p) → World → World
  unregister_all [] w = w
  unregister_all ((_, m) ∷ ms) w = unregister_all ms (unregister_vec m.vec w)

  unfoldable pub unregister : Collector p l → World → World
  unfolding unregister_all
  unregister c w = unregister_all c.metrics w
