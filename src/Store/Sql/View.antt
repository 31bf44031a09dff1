-- ===== src/Store/Sql/View.antt =====
-- The tables as an abstract store: four partial functions, and what each writing method of the
-- interface does to them.
use visus.Prelude.{
  ℕ, String, ℤ, true, Option, none, some, List, if◌then◌else◌, Eq, ◌==◌, string_eq, nat_eq,
}
use visus.Result.{Op, pure, ◌>>=◌}
use visus.Dict.{lookup}
use visus.External.Sql.{Moment, Connection}
use visus.Store.Types.{Collection, Histogram, Scan, NodeInfo, Metric, Pattern}
use visus.Store.Sql.Statements.{
  Tables, CollectionRow, ScanRow, NodeRow, owned_by, timestamp, node_info,
}
use visus.Store.Sql
use visus.Store.Sql.{collection_of, scan_of, read_histogram}

pub record Configuration : Type 0 where
  pub collections : String → Option Collection
  pub histograms : String → Option Histogram
  pub scans : String → Option Scan
  pub nodes : ℕ → Option NodeInfo

abbrev pub join_collection : String → Option CollectionRow → List Metric → Option Collection
join_collection name none ms = none
join_collection name (some r) ms = some (collection_of name r ms)

abbrev pub join_scan : String → Option ScanRow → List Pattern → Option Scan
join_scan name none ps = none
join_scan name (some r) ps = some (scan_of name r ps)

abbrev pub read_node : ℕ → Option NodeRow → Option NodeInfo
read_node id none = none
read_node id (some r) = some (node_info id r)

abbrev pub view : Tables → Configuration
view t = record {
  collections = λ n. join_collection n (lookup n t.collections) (owned_by n t.metrics);
  histograms = λ n. read_histogram n (lookup n t.histograms);
  scans = λ n. join_scan n (lookup n t.scans) (owned_by n t.patterns);
  nodes = λ id. read_node id (lookup id t.nodes);
}

-- The methods that write, as data.
pub data Write : Type 0 where
  delete_collection delete_histogram delete_scan : String → Write
  put_collection : Collection → Write
  put_histogram : Histogram → Write
  put_scan : Scan → Write
  register_node : String → ℤ → String → Write
  heartbeat delete_node : ℕ → Write

abbrev without_id : {S : Type 0} → Op S ℕ → Op S (Unit {0})
without_id m = m >>= λ id. pure tt

module _ (d : Connection Tables) where
  unfoldable pub exec : Write → Op d.Conn (Unit {0})
  unfolding Sql.delete_collection Sql.delete_histogram Sql.delete_scan Sql.put_collection
      Sql.put_histogram Sql.put_scan Sql.register_node Sql.heartbeat Sql.delete_node
  exec (delete_collection name) = Sql.delete_collection d name
  exec (delete_histogram name) = Sql.delete_histogram d name
  exec (delete_scan name) = Sql.delete_scan d name
  exec (put_collection c) = Sql.put_collection d c
  exec (put_histogram h) = Sql.put_histogram d h
  exec (put_scan s) = Sql.put_scan d s
  exec (register_node hostname pid version) =
      without_id (Sql.register_node d hostname pid version 0)
  exec (heartbeat id) = Sql.heartbeat d id 0
  exec (delete_node id) = Sql.delete_node d id

-- A function changed at one key.
abbrev pub at {ℓ κ} :
    {K : Type ℓ} {V : Type κ} ⦃e : Eq K⦄ → K → Option V → (K → Option V) → K → Option V
at k v f j = if k == j then v else f j

-- A histogram that is there stays enabled or disabled, and keeps the time of its creation.
abbrev pub replaced : Histogram → Moment → Option Histogram → Histogram
replaced h m none = record h { enabled = true; last_modified = timestamp m }
replaced h m (some old) = record h { enabled = old.enabled; last_modified = old.last_modified }

abbrev pub beaten : ℕ → Option NodeInfo → Option NodeInfo
beaten now none = none
beaten now (some n) = some (record n { updated = now })

abbrev pub effect : Write → Moment → Configuration → Configuration
effect (Write.delete_collection name) m v = record v { collections = at name none v.collections }
effect (Write.delete_histogram name) m v = record v { histograms = at name none v.histograms }
effect (Write.delete_scan name) m v = record v { scans = at name none v.scans }
effect (Write.put_collection c) m v = record v {
  collections = at c.name (some (record c { last_modified = timestamp m })) v.collections;
}
effect (Write.put_histogram h) m v = record v {
  histograms = at h.name (some (replaced h m (v.histograms h.name))) v.histograms;
}
effect (Write.put_scan s) m v = record v {
  scans = at s.name (some (record s { last_modified = timestamp m })) v.scans;
}
effect (Write.register_node hostname pid version) m v =
    let info : NodeInfo = record {
      id = m.row_id;
      hostname = hostname;
      pid = pid;
      version = version;
      updated = m.now;
    } in
    record v { nodes = at m.row_id (some info) v.nodes }
effect (Write.heartbeat id) m v = record v { nodes = at id (beaten m.now (v.nodes id)) v.nodes }
effect (Write.delete_node id) m v = record v { nodes = at id none v.nodes }
