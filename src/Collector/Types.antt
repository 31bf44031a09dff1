-- ===== src/Collector/Types.antt =====
-- The data of internal/collector/collector.go.
use visus.Prelude.{
  ℕ, String, Bool, List, [], ◌∷◌, ◌++◌, Option, ℤ, if◌then◌else◌, ◌==◌, string_eq, not,
}
use visus.Dict.{Dict}
use visus.External.Prometheus.{Prometheus}
use visus.External.Lru.{Lru}

abbrev pub database_label : String
database_label = "_database"

pub data MetricKind : Type 0 where
  undefined counter gauge : MetricKind

-- `prometheus.Collector`: one of the two types of vector that a metric may hold.
pub data Vec (p : Prometheus) : Type 0 where
  counter_vec : p.CounterVec → Vec p
  gauge_vec : p.GaugeVec → Vec p

pub record Metric (p : Prometheus) : Type 0 where
  pub help : String
  pub kind : MetricKind
  pub name : String
  pub vec : Vec p

pub record CacheKey : Type 0 where
  pub family : String
  pub labels : List String

pub record CacheValue (p : Prometheus) : Type 0 where
  pub labels : List String
  pub value : p.Float
  pub vec : p.CounterVec

-- The mutex and the registerer are left out: the registry is in the state `World` of Prometheus.
pub record Collector (p : Prometheus) (l : Lru CacheKey (CacheValue p)) : Type 0 where
  pub name : String
  pub counters_cache : Option l.Cache
  pub counters_cardinality : ℤ
  pub databases : String
  pub enabled : Bool
  pub frequency : ℤ
  pub gauge_labels : Dict String (Dict String (List String))
  pub label_map : Dict String ℕ
  pub labels : List String
  pub last_modified : ℕ
  pub max_results : ℤ
  pub metrics : Dict String (Metric p)
  pub query : String

module _ {p : Prometheus} {l : Lru CacheKey (CacheValue p)} where
  unfoldable pub get_all_labels : Collector p l → List String
  get_all_labels c = if not (c.databases == "") then c.labels ++ database_label ∷ [] else c.labels
