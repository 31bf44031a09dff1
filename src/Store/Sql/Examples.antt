-- ===== src/Store/Sql/Examples.antt =====
-- The store over the sample connection.
use visus.Prelude.{
  ◌≡◌, ◌≢◌, ◌⊎◌, refl, Bool, false, true, List, [], ◌∷◌, some, pos, map, Distinct, string_eq, sort,
}
use visus.Result.{ok, err}
use visus.Dict.{lookup, insert, remove}
use visus.External.Sql.{Moment}
use visus.Store.Types.{Histogram}
use visus.Store.Memory.Sample.{requests}
use visus.Store.Sql.Statements.{timestamp, owned_by, taken, insert_row, recent_nodes, list_nodes}
use visus.Store.Sql.{
  put_collection, get_collection, put_histogram, get_histogram, get_nodes, register_node,
  in_transaction, insert_metrics, read_rows, get_metrics,
}
use visus.Store.Sql.View.{view, Write, exec, replaced}
use visus.Store.Sql.Effects.{Does}
use visus.Store.Sql.Atomic.{exec-atomic}
use visus.Store.Sql.Reads.{get_collection-put_collection, Shows, get_histogram-put_histogram}
use visus.Store.Sql.Lists.{get_nodes-ListsRecent, ListsRecent}
use visus.Store.Sql.Sample.{sample, sample-IsTransactional, sample-whole, connect}

-- The third call, the upsert, is lost, and the metrics that were deleted before it are not.
abbrev lost : List Bool
lost = false ∷ false ∷ true ∷ []

put_lost : (put_collection sample requests (connect lost)).0 ≡ err "connection lost"
unfolding put_collection in_transaction remove
put_lost = refl

exec-atomic_example :
    (((exec sample (Write.put_collection requests) (connect lost)).0 ≢ ok tt)
      × ((exec sample (Write.put_collection requests) (connect lost)).1.committed
          ≡ (connect lost).committed))
    ⊎ Does
        (Write.put_collection requests)
        (connect lost).committed
        (exec sample (Write.put_collection requests) (connect lost)).1.committed
exec-atomic_example =
    exec-atomic sample sample-IsTransactional (Write.put_collection requests) (connect lost)

get_collection-put_collection_example :
    (m : Moment) × Shows sample sample-IsTransactional
      (some (record requests { last_modified = record { time = 51; valid = true } }))
      (some (record requests { last_modified = timestamp m }))
    × Distinct (map (λ a. a.name) requests.metrics)
unfolding put_collection in_transaction insert_metrics remove insert insert_row taken get_collection
    get_metrics read_rows owned_by lookup
get_collection-put_collection_example =
    get_collection-put_collection sample sample-IsTransactional requests (connect [])
      (some (record requests { last_modified = record { time = 51; valid = true } }))
      (sample-whole (λ m t. owned_by "requests" t.metrics)) refl refl

get_nodes-ListsRecent_example :
    (m : Moment) × ListsRecent m.now
      (register_node sample "n1" (pos 12) "v1" 0 (connect [])).1.committed.nodes
      (record { id = 1_050; hostname = "n1"; pid = pos 12; version = "v1"; updated = 50 } ∷ [])
unfolding register_node get_nodes list_nodes recent_nodes sort lookup insert read_rows
get_nodes-ListsRecent_example =
    get_nodes-ListsRecent sample sample-IsTransactional
      (register_node sample "n1" (pos 12) "v1" 0 (connect [])).1
      (record { id = 1_050; hostname = "n1"; pid = pos 12; version = "v1"; updated = 50 } ∷ [])
      (refl, tt) refl

abbrev latency : Histogram
latency = record {
  enabled = false;
  name = "latency";
  bins = pos 10;
  start = pos 1;
  end = pos 100;
  regex = "latency.*";
  last_modified = record { time = 3; valid = true };
}

get_histogram-put_histogram_example :
    (m : Moment) × (some
        (record latency { enabled = true; last_modified = record { time = 50; valid = true } })
      ≡ some (replaced latency m ((view (connect []).committed).histograms "latency")))
unfolding put_histogram get_histogram lookup insert
get_histogram-put_histogram_example =
    get_histogram-put_histogram sample sample-IsTransactional latency (connect [])
      (some (record latency { enabled = true; last_modified = record { time = 50; valid = true } }))
      refl refl
