-- ===== src/Store/Sql.antt =====
-- internal/store/collection.go, histogram.go, scan.go, node.go and store.go: the store that keeps
-- the configurations in the database. A method is a function of a connection to the tables.
pub mod Statements
mod Rows
pub mod View
mod Effects
mod Collections
mod Scans
mod Atomic
mod Reads
mod Lists
pub mod Sample
mod Examples
mod Transactions
use visus.Prelude.{ℕ, String, List, [], ◌∷◌, Option, none, some, ℤ, string_eq}
use visus.Result.{Result, Op, ok, err, chain, pure, lift, ◌>>=◌, ◌>>◌}
use visus.Dict.{keys, lookup}
use visus.External.Sql.{Connection}
use visus.Store.Types.{Collection, Metric, Histogram, Scan, Pattern, NodeInfo, Store}
use Statements.*

-- `for rows.Next() { if err := rows.Scan(…) … }`.
unfoldable pub read_rows {ℓ} : {A : Type ℓ} → List (Result A) → Result (List A)
read_rows [] = ok []
read_rows (r ∷ rs) = chain r (λ x. chain (read_rows rs) (λ xs. ok (x ∷ xs)))

-- `pgx.CollectRows`, which looks at `rows.Err()`.
abbrev pub collected {ℓ} : {A : Type ℓ} → Option String → A → Result A
collected none xs = ok xs
collected (some e) xs = err e

abbrev pub collection_of : String → CollectionRow → List Metric → Collection
collection_of name r metrics = record {
  databases = r.databases;
  enabled = r.enabled;
  frequency = r.frequency;
  labels = r.labels;
  last_modified = r.updated;
  max_result = r.max_results;
  metrics = metrics;
  name = name;
  query = r.query;
  scope = r.scope;
}

abbrev pub scan_of : String → ScanRow → List Pattern → Scan
scan_of name r patterns = record {
  enabled = r.enabled;
  format = r.format;
  last_modified = r.updated;
  name = name;
  path = r.path;
  patterns = patterns;
}

abbrev pub histogram_of : String → HistogramRow → Histogram
histogram_of name r = record {
  enabled = r.enabled;
  name = name;
  bins = r.bins;
  start = r.start;
  end = r.end;
  regex = r.regex;
  last_modified = r.updated;
}

abbrev pub read_histogram : String → Option HistogramRow → Option Histogram
read_histogram name none = none
read_histogram name (some r) = some (histogram_of name r)

module _ (d : Connection Tables) where
  -- `defer txn.Rollback(ctx)`, whose error is only logged.
  abbrev pub rolled_back {ℓ} : {A : Type ℓ} → Result A × d.Conn → Result A × d.Conn
  rolled_back (r, c) = (r, d.rollback c)

  -- What the four methods that begin a transaction do around their statements.
  unfoldable pub in_transaction : Op d.Conn (Unit {0}) → Op d.Conn (Unit {0})
  in_transaction body = do d.begin; λ c. rolled_back ((body >> d.commit) c)

  unfoldable pub delete_collection : String → Op d.Conn (Unit {0})
  unfolding in_transaction
  delete_collection name =
      in_transaction do d.exec_in (delete_metrics name); d.exec_in (delete_collection_row name)

  unfoldable pub get_collection_names : Op d.Conn (List String)
  unfolding read_rows
  get_collection_names = do
    fetched ← d.query (λ m t. keys t.collections)
    lift (read_rows fetched.rows)

  unfoldable pub get_metrics : String → Op d.Conn (List Metric)
  unfolding read_rows
  get_metrics name = do
    fetched ← d.query (λ m t. owned_by name t.metrics)
    lift (read_rows fetched.rows)

  abbrev pub add_metrics : String → Option CollectionRow → Op d.Conn (Option Collection)
  add_metrics name none = pure none
  add_metrics name (some row) = do
    metrics ← get_metrics name
    pure (some (collection_of name row metrics))

  unfoldable pub get_collection : String → Op d.Conn (Option Collection)
  get_collection name = do
    found ← d.query_row (λ m t. lookup name t.collections)
    add_metrics name found

  unfoldable pub insert_metrics : String → List Metric → Op d.Conn (Unit {0})
  insert_metrics name [] = pure tt
  insert_metrics name (a ∷ rest) = do d.exec_in (insert_metric name a); insert_metrics name rest

  unfoldable pub put_collection : Collection → Op d.Conn (Unit {0})
  unfolding in_transaction insert_metrics
  put_collection c = in_transaction do
    d.exec_in (delete_metrics c.name)
    d.exec_in (upsert_collection c)
    insert_metrics c.name c.metrics

  unfoldable pub delete_histogram : String → Op d.Conn (Unit {0})
  delete_histogram regex = d.exec (delete_histogram_row regex)

  unfoldable pub get_histogram : String → Op d.Conn (Option Histogram)
  get_histogram name = do
    found ← d.query_row (λ m t. lookup name t.histograms)
    pure (read_histogram name found)

  unfoldable pub get_histogram_names : Op d.Conn (List String)
  unfolding read_rows
  get_histogram_names = do
    fetched ← d.query (λ m t. keys t.histograms)
    lift (read_rows fetched.rows)

  unfoldable pub put_histogram : Histogram → Op d.Conn (Unit {0})
  put_histogram h = d.exec (upsert_histogram h)

  unfoldable pub delete_scan : String → Op d.Conn (Unit {0})
  unfolding in_transaction
  delete_scan name =
      in_transaction do d.exec_in (delete_patterns name); d.exec_in (delete_scan_row name)

  unfoldable pub get_scan_names : Op d.Conn (List String)
  unfolding read_rows
  get_scan_names = do fetched ← d.query (λ m t. keys t.scans); lift (read_rows fetched.rows)

  unfoldable pub get_scan_patterns : String → Op d.Conn (List Pattern)
  unfolding read_rows
  get_scan_patterns name = do
    fetched ← d.query (λ m t. owned_by name t.patterns)
    lift (read_rows fetched.rows)

  abbrev pub add_patterns : String → Option ScanRow → Op d.Conn (Option Scan)
  add_patterns name none = pure none
  add_patterns name (some row) = do
    patterns ← get_scan_patterns name
    pure (some (scan_of name row patterns))

  unfoldable pub get_scan : String → Op d.Conn (Option Scan)
  get_scan name = do found ← d.query_row (λ m t. lookup name t.scans); add_patterns name found

  unfoldable pub insert_patterns : String → List Pattern → Op d.Conn (Unit {0})
  insert_patterns name [] = pure tt
  insert_patterns name (a ∷ rest) = do d.exec_in (insert_pattern name a); insert_patterns name rest

  unfoldable pub put_scan : Scan → Op d.Conn (Unit {0})
  unfolding in_transaction insert_patterns
  put_scan s = in_transaction do
    d.exec_in (delete_patterns s.name)
    d.exec_in (upsert_scan s)
    insert_patterns s.name s.patterns

  unfoldable pub get_nodes : Op d.Conn (List NodeInfo)
  unfolding list_nodes read_rows
  get_nodes = do
    fetched ← d.query_ordered list_nodes
    nodes ← lift (read_rows fetched.rows)
    lift (collected fetched.failure nodes)

  -- The clock of the database is used, not `now`.
  unfoldable pub register_node : String → ℤ → String → ℕ → Op d.Conn ℕ
  register_node hostname pid version now = d.exec_row (insert_node hostname pid version)

  unfoldable pub heartbeat : ℕ → ℕ → Op d.Conn (Unit {0})
  heartbeat id now = d.exec (heartbeat_node id)

  unfoldable pub delete_node : ℕ → Op d.Conn (Unit {0})
  delete_node id = d.exec (delete_node_row id)

  -- `lease.Init` is a parameter.
  unfoldable pub init : Op d.Conn (Unit {0}) → Op d.Conn (Unit {0})
  init init_lease = do d.exec create_tables; init_lease

  unfoldable pub sql_store : Op d.Conn (Unit {0}) → Store d.Conn
  sql_store init_lease = record {
    delete_collection = delete_collection;
    delete_histogram = delete_histogram;
    delete_scan = delete_scan;
    get_collection = get_collection;
    get_collection_names = get_collection_names;
    get_histogram = get_histogram;
    get_histogram_names = get_histogram_names;
    get_metrics = get_metrics;
    get_nodes = get_nodes;
    register_node = register_node;
    heartbeat = heartbeat;
    delete_node = delete_node;
    get_scan = get_scan;
    get_scan_names = get_scan_names;
    get_scan_patterns = get_scan_patterns;
    init = init init_lease;
    put_collection = put_collection;
    put_histogram = put_histogram;
    put_scan = put_scan;
  }
