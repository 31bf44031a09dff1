-- ===== src/Store/Memory.antt =====
-- internal/store/memory.go, called by one goroutine at a time. The four `*sync.Map` pointers are
-- nil until `Init`, and every use of a nil one panics. What the caller's `now` returns is the last
-- argument of the two methods that call it. Stored pointers are values here: nobody changes a
-- configuration after it was put.
pub mod Calls
pub mod View
pub mod Errors
pub mod Names
pub mod Nodes
pub mod Steady
pub mod Sample
mod Examples
use visus.Prelude.{
  ℕ, ◌+◌, ◌%◌, ◌^◌, String, Bool, List, [], ◌∷◌, Option, none, some, leb, sort, string_le, ℤ,
  string_eq, nat_eq,
}
use visus.Result.{Result, Op, ok, deref, raise, or_nil, pure, lift, gets, modify, ◌>>=◌, ◌>>◌}
use visus.Dict.{Dict, keys, lookup, insert, remove}
use visus.Store.Types.{Collection, Histogram, Scan, NodeInfo, Metric, Pattern, Store}

pub record Memory : Type 0 where
  pub collections : Option (Dict String Collection)
  pub histograms : Option (Dict String Histogram)
  pub scans : Option (Dict String Scan)
  pub nodes : Option (Dict ℕ NodeInfo)
  pub error : Option String
  pub next_node_id : ℕ

unfoldable pub new_memory_store : Memory
new_memory_store = record {
  collections = none;
  histograms = none;
  scans = none;
  nodes = none;
  error = none;
  next_node_id = 0;
}

-- `if m.Error() != nil { return m.Error() }`
abbrev check : Op Memory (Unit {0})
check m = (raise m.error tt, m)

-- The map behind a pointer of the store.
abbrev load {ℓ} : {A : Type ℓ} → (Memory → Option A) → Op Memory A
load field m = (deref (field m), m)

unfoldable pub delete_collection : String → Op Memory (Unit {0})
delete_collection name = do
  check
  d ← load (λ m. m.collections)
  modify (λ m. record m { collections = some (remove name d) })

unfoldable pub delete_histogram : String → Op Memory (Unit {0})
delete_histogram name = do
  check
  d ← load (λ m. m.histograms)
  modify (λ m. record m { histograms = some (remove name d) })

unfoldable pub delete_scan : String → Op Memory (Unit {0})
delete_scan name = do
  check
  d ← load (λ m. m.scans)
  modify (λ m. record m { scans = some (remove name d) })

-- An int64 counter, which wraps around.
unfoldable pub next_id : Op Memory ℕ
next_id m = let id = (m.next_node_id + 1) % 2 ^ 64 in (ok id, record m { next_node_id = id })

unfoldable pub get_collection : String → Op Memory (Option Collection)
get_collection name = do check; d ← load (λ m. m.collections); pure (lookup name d)

unfoldable pub get_names {ℓ} :
    {A : Type ℓ} → (Memory → Option (Dict String A)) → Op Memory (List String)
get_names vals = do check; d ← load vals; pure (sort string_le (keys d))

unfoldable pub get_collection_names : Op Memory (List String)
unfolding get_names
get_collection_names = get_names (λ m. m.collections)

unfoldable pub get_histogram : String → Op Memory (Option Histogram)
get_histogram name = do check; d ← load (λ m. m.histograms); pure (lookup name d)

unfoldable pub get_histogram_names : Op Memory (List String)
unfolding get_names
get_histogram_names = get_names (λ m. m.histograms)

-- The error of the inner call is dropped, and `coll.Metrics` reads through a nil pointer.
unfoldable pub get_metrics : String → Op Memory (List Metric)
unfolding get_collection
get_metrics name = do
  check
  found ← λ m. (or_nil (get_collection name m).0, m)
  coll ← lift (deref found)
  pure coll.metrics

abbrev pub newest_first : NodeInfo → NodeInfo → Bool
newest_first a b = leb b.updated a.updated

abbrev pub values {ℓ κ} : {K : Type ℓ} {V : Type κ} → Dict K V → List V
values [] = []
values ((k, v) ∷ d) = v ∷ values d

unfoldable pub get_nodes : Op Memory (List NodeInfo)
get_nodes = do check; d ← load (λ m. m.nodes); pure (sort newest_first (values d))

unfoldable pub register_node : String → ℤ → String → ℕ → Op Memory ℕ
unfolding next_id
register_node hostname pid version now = do
  check
  id ← next_id
  d ← load (λ m. m.nodes)
  let info : NodeInfo = record {
    id = id;
    hostname = hostname;
    pid = pid;
    version = version;
    updated = now;
  }
  modify (λ m. record m { nodes = some (insert id info d) })
  pure id

unfoldable pub heartbeat : ℕ → ℕ → Op Memory (Unit {0})
heartbeat id now = do
  check
  d ← load (λ m. m.nodes)
  elim (lookup id d) [
    | none ↦ pure tt
    | some n ↦ modify (λ m. record m { nodes = some (insert id (record n { updated = now }) d) })
  ]

unfoldable pub delete_node : ℕ → Op Memory (Unit {0})
delete_node id = do
  check
  d ← load (λ m. m.nodes)
  modify (λ m. record m { nodes = some (remove id d) })

unfoldable pub get_scan : String → Op Memory (Option Scan)
get_scan name = do check; d ← load (λ m. m.scans); pure (lookup name d)

unfoldable pub get_scan_names : Op Memory (List String)
unfolding get_names
get_scan_names = get_names (λ m. m.scans)

unfoldable pub get_scan_patterns : String → Op Memory (List Pattern)
unfolding get_scan
get_scan_patterns name = do
  check
  found ← λ m. (or_nil (get_scan name m).0, m)
  scan ← lift (deref found)
  pure scan.patterns

unfoldable pub inject_error : Option String → Op Memory (Unit {0})
inject_error e = modify (λ m. record m { error = e })

-- The counter of node ids goes on.
unfoldable pub init : Op Memory (Unit {0})
unfolding inject_error
init = do
  modify (λ m. record m {
    collections = some [];
    histograms = some [];
    scans = some [];
    nodes = some [];
  })
  inject_error none

unfoldable pub put_collection : Collection → Op Memory (Unit {0})
put_collection collection = do
  check
  d ← load (λ m. m.collections)
  modify (λ m. record m { collections = some (insert collection.name collection d) })

unfoldable pub put_histogram : Histogram → Op Memory (Unit {0})
put_histogram histogram = do
  check
  d ← load (λ m. m.histograms)
  modify (λ m. record m { histograms = some (insert histogram.name histogram d) })

unfoldable pub put_scan : Scan → Op Memory (Unit {0})
put_scan scan = do
  check
  d ← load (λ m. m.scans)
  modify (λ m. record m { scans = some (insert scan.name scan d) })

-- `var _ Store = &Memory{}`
abbrev pub memory_store : Store Memory
memory_store = record {
  delete_collection = delete_collection;
  delete_histogram = delete_histogram;
  delete_scan = delete_scan;
  get_collection = get_collection;
  get_collection_names = get_collection_names;
  get_histogram = get_histogram;
  get_histogram_names = get_histogram_names;
  get_metrics = get_metrics;
  get_nodes = get_nodes;
  register_node = register_node;
  heartbeat = heartbeat;
  delete_node = delete_node;
  get_scan = get_scan;
  get_scan_names = get_scan_names;
  get_scan_patterns = get_scan_patterns;
  init = init;
  put_collection = put_collection;
  put_histogram = put_histogram;
  put_scan = put_scan;
}
