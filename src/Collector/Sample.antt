-- ===== src/Collector/Sample.antt =====
-- A collector that was built from a collection, for examples.
use visus.Prelude.{◌≡◌, refl, true, none, [], ◌∷◌, pos, string_eq}
use visus.Result.{ok}
use visus.Dict.{lookup, insert}
use visus.Store.Memory.Sample.{requests}
use visus.Sample.{sample_prometheus, sample_lru}
use visus.Collector.Types.{Collector, MetricKind, counter_vec, gauge_vec, get_all_labels}
use visus.Collector.Build.{from_collection, add_metric, label_positions}

abbrev pub requests_collector : Collector sample_prometheus sample_lru
requests_collector = record {
  name = "requests";
  counters_cache = none;
  counters_cardinality = pos 1;
  databases = "";
  enabled = true;
  frequency = pos 10;
  gauge_labels = [];
  label_map = ("app", 0) ∷ [];
  labels = "app" ∷ [];
  last_modified = 7;
  max_results = pos 50;
  metrics =
      (
        "count",
        record {
          help = "requests";
          kind = MetricKind.counter;
          name = "count";
          vec = counter_vec ("requests_count", 1);
        },
      )
      ∷ (
        "load",
        record {
          help = "load";
          kind = MetricKind.gauge;
          name = "load";
          vec = gauge_vec ("requests_load", 1);
        },
      )
      ∷ [];
  query = requests.query;
}

pub builds_requests :
    (w : sample_prometheus.World)
    → (from_collection sample_prometheus sample_lru requests w).0 ≡ ok requests_collector
unfolding from_collection add_metric label_positions get_all_labels lookup insert
builds_requests w = refl
