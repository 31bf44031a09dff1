-- ===== src/Store/Types.antt =====
-- The records of internal/store: collection.go, histogram.go, scan.go and node.go.
use visus.Prelude.{ℕ, String, Bool, List, ℤ}
use visus.Result.{Op, ok}
use visus.Prelude.{Option, some, ◌≡◌}

-- `Scope`, `Kind` and `LogFormat` are strings in the source, and a stored value may be any string.
abbrev pub Scope : Type 0
Scope = String

abbrev pub cluster : Scope
cluster = "cluster"

abbrev pub node : Scope
node = "node"

abbrev pub Kind : Type 0
Kind = String

abbrev pub counter : Kind
counter = "counter"

abbrev pub gauge : Kind
gauge = "gauge"

abbrev pub LogFormat : Type 0
LogFormat = String

abbrev pub crdb_v2 : LogFormat
crdb_v2 = "crdb-v2"

abbrev pub crdb_v2_auth : LogFormat
crdb_v2_auth = "crdb-v2-auth"

-- pgtype.Interval.
pub record Interval : Type 0 where
  pub microseconds : ℤ
  pub days : ℤ
  pub months : ℤ
  pub valid : Bool

-- pgtype.Timestamp; a time is its number of ticks since Go's zero time.
pub record Timestamp : Type 0 where
  pub time : ℕ
  pub valid : Bool

pub record Metric : Type 0 where
  pub name : String
  pub kind : Kind
  pub help : String

pub record Collection : Type 0 where
  pub databases : String
  pub enabled : Bool
  pub frequency : Interval
  pub labels : List String
  pub last_modified : Timestamp
  pub max_result : ℤ
  pub metrics : List Metric
  pub name : String
  pub query : String
  pub scope : Scope

pub record Histogram : Type 0 where
  pub enabled : Bool
  pub name : String
  pub bins : ℤ
  pub start : ℤ
  pub end : ℤ
  pub regex : String
  pub last_modified : Timestamp

pub record Pattern : Type 0 where
  pub help : String
  pub name : String
  pub exclude : String
  pub regex : String

pub record Scan : Type 0 where
  pub enabled : Bool
  pub format : LogFormat
  pub last_modified : Timestamp
  pub name : String
  pub path : String
  pub patterns : List Pattern

-- `id` is the bit pattern of an int64.
pub record NodeInfo : Type 0 where
  pub id : ℕ
  pub hostname : String
  pub pid : ℤ
  pub version : String
  pub updated : ℕ

-- The interface `Store`. A pointer that may be nil is an `Option`.
pub record Store (S : Type 0) : Type 0 where
  pub delete_collection : String → Op S (Unit {0})
  pub delete_histogram : String → Op S (Unit {0})
  pub delete_scan : String → Op S (Unit {0})
  pub get_collection : String → Op S (Option Collection)
  pub get_collection_names : Op S (List String)
  pub get_histogram : String → Op S (Option Histogram)
  pub get_histogram_names : Op S (List String)
  pub get_metrics : String → Op S (List Metric)
  pub get_nodes : Op S (List NodeInfo)
  pub register_node : String → ℤ → String → ℕ → Op S ℕ
  pub heartbeat : ℕ → ℕ → Op S (Unit {0})
  pub delete_node : ℕ → Op S (Unit {0})
  pub get_scan : String → Op S (Option Scan)
  pub get_scan_names : Op S (List String)
  pub get_scan_patterns : String → Op S (List Pattern)
  pub init : Op S (Unit {0})
  pub put_collection : Collection → Op S (Unit {0})
  pub put_histogram : Histogram → Op S (Unit {0})
  pub put_scan : Scan → Op S (Unit {0})

-- At this state reading the collections changes nothing, and gives each under its own name.
pub record IsSteady {S : Type 0} (store : Store S) (st : S) : Type 0 where
  pub reads : (n : String) → (store.get_collection n st).1 ≡ st
  pub lists : (store.get_collection_names st).1 ≡ st
  pub named :
      (n : String) (c : Collection) → (store.get_collection n st).0 ≡ ok (some c) → c.name ≡ n
