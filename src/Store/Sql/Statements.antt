-- ===== src/Store/Sql/Statements.antt =====
-- The tables of internal/store/sql/ddl.sql, and the statements of the files beside it.
use visus.Prelude.{
  ℕ, ◌+◌, String, Bool, true, false, ◌&&◌, ◌||◌, List, [], ◌∷◌, ◌++◌, Option, none, some, ℤ,
  if◌then◌else◌, string_eq, nat_eq, ltb, leb, sort, ◌==◌,
}
use visus.Result.{Result, ok, err, panic}
use visus.Dict.{Dict, lookup, insert, remove}
use visus.External.Sql.{Moment}
use visus.Store.Types.{
  Scope, Interval, Timestamp, Metric, Collection, Histogram, Pattern, Scan, LogFormat, NodeInfo,
  node, cluster, gauge, counter,
}

pub record CollectionRow : Type 0 where
  pub updated : Timestamp
  pub enabled : Bool
  pub scope : Scope
  pub max_results : ℤ
  pub frequency : Interval
  pub databases : String
  pub query : String
  pub labels : List String

pub record HistogramRow : Type 0 where
  pub regex : String
  pub updated : Timestamp
  pub enabled : Bool
  pub bins : ℤ
  pub start : ℤ
  pub end : ℤ

pub record ScanRow : Type 0 where
  pub path : String
  pub format : LogFormat
  pub updated : Timestamp
  pub enabled : Bool

pub record NodeRow : Type 0 where
  pub hostname : String
  pub pid : ℤ
  pub version : String
  pub updated : ℕ

-- Keys are primary keys, without the namespace of a collection, which is always empty; the keys of `metrics` and `patterns` are the first halves of theirs.
pub record Tables : Type 0 where
  pub collections : Dict String CollectionRow
  pub metrics : Dict String Metric
  pub histograms : Dict String HistogramRow
  pub scans : Dict String ScanRow
  pub patterns : Dict String Pattern
  pub nodes : Dict ℕ NodeRow

-- ddl.sql, on tables that are there: each of its statements has nothing left to do.
abbrev pub create_tables : Moment → Tables → Result Tables
create_tables m t = ok t

-- The rows of one owner.
unfoldable pub owned_by {ℓ} : {A : Type ℓ} → String → Dict String A → List A
owned_by k [] = []
owned_by k ((j, a) ∷ t) = let rest = owned_by k t in if j == k then a ∷ rest else rest

-- Whether the primary key of a row, its owner and its name, is taken.
unfoldable pub taken {ℓ} : {A : Type ℓ} → (A → String) → String → String → Dict String A → Bool
taken name_of k n [] = false
taken name_of k n ((j, a) ∷ t) = (j == k && name_of a == n) || taken name_of k n t

unfoldable pub insert_row {ℓ} :
    {A : Type ℓ} → (A → String) → String → A → Dict String A → Result (Dict String A)
unfolding taken
insert_row name_of k a t =
    if taken name_of k (name_of a) t then err "duplicate key" else ok (t ++ ((k, a) ∷ []))

abbrev pub timestamp : Moment → Timestamp
timestamp m = record { time = m.now; valid = true }

-- deleteMetrics.sql, deleteCollection.sql, upsertCollection.sql, insertMetric.sql.
abbrev pub delete_metrics : String → Moment → Tables → Result Tables
delete_metrics name m t = ok (record t { metrics = remove name t.metrics })

abbrev pub delete_collection_row : String → Moment → Tables → Result Tables
delete_collection_row name m t = ok (record t { collections = remove name t.collections })

abbrev pub collection_row : Collection → Moment → CollectionRow
collection_row c m = record {
  updated = timestamp m;
  enabled = c.enabled;
  scope = c.scope;
  max_results = c.max_result;
  frequency = c.frequency;
  databases = c.databases;
  query = c.query;
  labels = c.labels;
}

-- The types `_visus.scope` and `_visus.kind`, which have two values each.
abbrev pub enum {ℓ} : {A : Type ℓ} → Bool → Result A → Result A
enum true r = r
enum false r = err "invalid input value for enum"

abbrev pub upsert_collection : Collection → Moment → Tables → Result Tables
upsert_collection c m t =
    enum (c.scope == node || c.scope == cluster)
      (ok (record t { collections = insert c.name (collection_row c m) t.collections }))

abbrev pub with_metrics : Tables → Result (Dict String Metric) → Result Tables
with_metrics t (ok d) = ok (record t { metrics = d })
with_metrics t (err e) = err e
with_metrics t panic = panic

abbrev pub insert_metric : String → Metric → Moment → Tables → Result Tables
insert_metric name a m t =
    enum (a.kind == gauge || a.kind == counter)
      (with_metrics t (insert_row (λ x. x.name) name a t.metrics))

-- deletePatterns.sql, deleteScan.sql, upsertScan.sql, insertPattern.sql.
abbrev pub delete_patterns : String → Moment → Tables → Result Tables
delete_patterns name m t = ok (record t { patterns = remove name t.patterns })

abbrev pub delete_scan_row : String → Moment → Tables → Result Tables
delete_scan_row name m t = ok (record t { scans = remove name t.scans })

abbrev pub scan_row : Scan → Moment → ScanRow
scan_row s m = record {
  path = s.path;
  format = s.format;
  updated = timestamp m;
  enabled = s.enabled;
}

abbrev pub upsert_scan : Scan → Moment → Tables → Result Tables
upsert_scan s m t = ok (record t { scans = insert s.name (scan_row s m) t.scans })

abbrev pub with_patterns : Tables → Result (Dict String Pattern) → Result Tables
with_patterns t (ok d) = ok (record t { patterns = d })
with_patterns t (err e) = err e
with_patterns t panic = panic

abbrev pub insert_pattern : String → Pattern → Moment → Tables → Result Tables
insert_pattern name a m t = with_patterns t (insert_row (λ x. x.name) name a t.patterns)

-- deleteHistogram.sql and upsertHistogram.sql, which names neither `enabled` nor `updated`: a new
-- row has their defaults, and a row that is there keeps them.
abbrev pub delete_histogram_row : String → Moment → Tables → Result Tables
delete_histogram_row name m t = ok (record t { histograms = remove name t.histograms })

abbrev pub histogram_row : Histogram → Moment → Option HistogramRow → HistogramRow
histogram_row h m none = record {
  regex = h.regex;
  updated = timestamp m;
  enabled = true;
  bins = h.bins;
  start = h.start;
  end = h.end;
}
histogram_row h m (some r) = record r {
  regex = h.regex;
  bins = h.bins;
  start = h.start;
  end = h.end;
}

abbrev pub upsert_histogram : Histogram → Moment → Tables → Result Tables
upsert_histogram h m t =
    let row = histogram_row h m (lookup h.name t.histograms) in
    ok (record t { histograms = insert h.name row t.histograms })

-- registerNode.sql, heartbeatNode.sql, deleteNode.sql.
abbrev pub added_node : Tables → NodeRow → ℕ → Option NodeRow → Result (Tables × ℕ)
added_node t row id none = ok (record t { nodes = insert id row t.nodes }, id)
added_node t row id (some r) = err "duplicate key"

abbrev pub insert_node : String → ℤ → String → Moment → Tables → Result (Tables × ℕ)
insert_node hostname pid version m t =
    let row : NodeRow = record {
      hostname = hostname;
      pid = pid;
      version = version;
      updated = m.now;
    } in
    added_node t row m.row_id (lookup m.row_id t.nodes)

unfoldable pub beat : ℕ → ℕ → Dict ℕ NodeRow → Dict ℕ NodeRow
beat id now [] = []
beat id now ((i, r) ∷ d) =
    let rest = beat id now d in
    if i == id then (i, record r { updated = now }) ∷ rest else (i, r) ∷ rest

abbrev pub heartbeat_node : ℕ → Moment → Tables → Result Tables
heartbeat_node id m t = ok (record t { nodes = beat id m.now t.nodes })

abbrev pub delete_node_row : ℕ → Moment → Tables → Result Tables
delete_node_row id m t = ok (record t { nodes = remove id t.nodes })

-- The selects. A timestamptz counts microseconds.
abbrev pub five_minutes : ℕ
five_minutes = 300_000_000

abbrev pub is_recent : ℕ → NodeRow → Bool
is_recent now r = ltb now (r.updated + five_minutes)

abbrev pub node_info : ℕ → NodeRow → NodeInfo
node_info id r = record {
  id = id;
  hostname = r.hostname;
  pid = r.pid;
  version = r.version;
  updated = r.updated;
}

unfoldable pub recent_nodes : ℕ → Dict ℕ NodeRow → List NodeInfo
recent_nodes now [] = []
recent_nodes now ((id, r) ∷ d) =
    let rest = recent_nodes now d in if is_recent now r then node_info id r ∷ rest else rest

abbrev pub updated_first : NodeInfo → NodeInfo → Bool
updated_first a b = leb b.updated a.updated

unfoldable pub list_nodes : Moment → Tables → List NodeInfo
unfolding recent_nodes sort
list_nodes m t = sort updated_first (recent_nodes m.now t.nodes)
