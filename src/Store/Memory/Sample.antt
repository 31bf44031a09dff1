-- ===== src/Store/Memory/Sample.antt =====
-- A store in memory with two collections, a scan and two nodes, for examples.
use visus.Prelude.{◌≡◌, refl, true, none, some, List, [], ◌∷◌, pos}
use visus.Dict.{lookup, insert}
use visus.Store.Types.{Collection, Scan, cluster, crdb_v2}
use visus.Store.Memory.{Memory, new_memory_store}
use visus.Store.Memory.Calls.{Call, exec, run, IsReady}
use visus.Store.Memory.Names.{IsConsistent, run-IsConsistent}

abbrev pub requests : Collection
requests = record {
  databases = "";
  enabled = true;
  frequency = record { microseconds = pos 10_000_000; days = pos 0; months = pos 0; valid = true };
  labels = "app" ∷ [];
  last_modified = record { time = 7; valid = true };
  max_result = pos 50;
  metrics =
      record { name = "count"; kind = "counter"; help = "requests" }
      ∷ record { name = "load"; kind = "gauge"; help = "load" }
      ∷ [];
  name = "requests";
  query = "select app, count, load from t limit $1";
  scope = cluster;
}

abbrev pub auth_log : Scan
auth_log = record {
  enabled = true;
  format = crdb_v2;
  last_modified = record { time = 3; valid = true };
  name = "auth";
  path = "/var/log/auth.log";
  patterns = [];
}

abbrev pub history : List Call
history =
    Call.init
    ∷ Call.put_collection requests
    ∷ Call.put_collection (record requests { name = "aborts" })
    ∷ Call.put_scan auth_log
    ∷ Call.register_node "n1" (pos 12) "v1" 100
    ∷ Call.register_node "n2" (pos 13) "v1" 110
    ∷ Call.heartbeat 1 120
    ∷ []

-- The store after that history.
abbrev pub filled : Memory
filled = record {
  collections =
      some (("requests", requests) ∷ ("aborts", record requests { name = "aborts" }) ∷ []);
  histograms = some [];
  scans = some (("auth", auth_log) ∷ []);
  nodes = some (
      (1, record { id = 1; hostname = "n1"; pid = pos 12; version = "v1"; updated = 120 })
      ∷ (2, record { id = 2; hostname = "n2"; pid = pos 13; version = "v1"; updated = 110 })
      ∷ []);
  error = none;
  next_node_id = 2;
}

pub run-history : run history new_memory_store ≡ filled
unfolding run exec new_memory_store lookup insert
run-history = refl

pub filled-IsReady : IsReady filled
filled-IsReady = record { collections = refl; histograms = refl; scans = refl; nodes = refl }

pub filled-IsConsistent : IsConsistent filled
filled-IsConsistent = rw run-history at (run-IsConsistent history)
