-- ===== src/Store/Memory/Examples.antt =====
-- memory.go on small stores.
use visus.Prelude.{
  ℕ, ◌≡◌, ◌↔◌, refl, true, some, List, [], ◌∷◌, arith, pos, IsSorted, Perm, sort, string_le,
}
use visus.Result.{ok, err, panic}
use visus.Store.Types.{NodeInfo}
use visus.Store.Memory.Sample.{
  auth_log, history, filled, run-history, filled-IsReady, filled-IsConsistent,
}
use visus.Store.Memory.{
  new_memory_store, newest_first, get_nodes, get_collection_names, get_histogram_names,
  get_scan_names,
}
use visus.Store.Memory.Calls.{Call, Reply, exec, run}
use visus.Store.Memory.Errors.{exec_injected, exec-panic, dangling}
use visus.Store.Memory.View.{view, view-run, spec_run}
use visus.Store.Memory.Names.{IsConsistent, run-IsConsistent, Returns, names_complete}
use visus.Store.Memory.Nodes.{Registers, get_nodes_complete, register_fresh, stored_nodes}

list_names :
    (exec Call.get_collection_names filled).0 ≡ ok (Reply.names ("aborts" ∷ "requests" ∷ []))
unfolding exec sort string_le
list_names = refl

exec_injected_example :
    exec (Call.put_scan auth_log) (record filled { error = some "down" })
    ≡ (err "down", record filled { error = some "down" })
exec_injected_example =
    exec_injected (record filled { error = some "down" }) (Call.put_scan auth_log) "down" refl refl

exec-panic_example :
    ((exec (Call.get_metrics "Gone") filled).0 ≡ panic)
    ↔ (dangling filled (Call.get_metrics "Gone") ≡ true)
exec-panic_example = exec-panic filled (Call.get_metrics "Gone") filled-IsReady

view-run_example :
    view (run (Call.delete_node 1 ∷ Call.heartbeat 2 130 ∷ []) filled)
    ≡ spec_run (Call.delete_node 1 ∷ Call.heartbeat 2 130 ∷ []) (view filled)
view-run_example = view-run (Call.delete_node 1 ∷ Call.heartbeat 2 130 ∷ []) filled filled-IsReady

run-IsConsistent_example : IsConsistent (run history new_memory_store)
run-IsConsistent_example = run-IsConsistent history

names_complete_example :
    Returns get_collection_names filled.collections filled
    × Returns get_histogram_names filled.histograms filled
    × Returns get_scan_names filled.scans filled
names_complete_example = names_complete filled filled-IsReady filled-IsConsistent refl

get_nodes_complete_example :
    (ns : List NodeInfo) × (get_nodes filled ≡ (ok ns, filled))
    × IsSorted newest_first ns
    × Perm ns (stored_nodes filled)
get_nodes_complete_example = get_nodes_complete filled filled-IsReady refl

register_fresh_example :
    (id : ℕ) × Registers (run history new_memory_store) "n3" (pos 14) "v2" 140 id
register_fresh_example =
    register_fresh history "n3" (pos 14) "v2" 140 (omega arith) (rw run-history filled-IsReady)
      (rw run-history refl)
