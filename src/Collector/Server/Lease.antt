-- ===== src/Collector/Server/Lease.antt =====
-- server.go: `maybeRefresh`, and what `start` has the lease and the scheduler call. `try_lock` is what
-- `s.mu.TryLock()` returns, and `stopping` what `ctx.IsStopping()` does.
use visus.Prelude.{
  String, ◌≡◌, Bool, true, false, not, none, some, List, [], ◌∷◌, ◌==◌, string_eq, if◌then◌else◌,
  arith,
}
use visus.Result.{ok, err, panic, pure, lift, modify, ◌>>◌}
use visus.Dict.{lookup}
use visus.Store.Types.{Collection, IsSteady, cluster}
use visus.Collector.Server.{Parts, Server, Run, set_lease_holder, locked_refresh}
use visus.Collector.Server.Refresh.{refresh-Refreshed}

module _ (t : Parts) where
  unfoldable pub maybe_refresh : Bool → Run t (Unit {0})
  maybe_refresh try_lock = if not try_lock then pure tt else locked_refresh t

  -- The lease was acquired.
  unfoldable pub acquired : Bool → Run t (Unit {0})
  unfolding maybe_refresh
  acquired try_lock = do modify (set_lease_holder t true); maybe_refresh try_lock

  -- The lease was released by its context.
  unfoldable pub lost : Bool → Bool → Run t (Unit {0})
  unfolding maybe_refresh
  lost stopping try_lock = do
    modify (set_lease_holder t false)
    if stopping then lift (err "cancel singleton") else maybe_refresh try_lock

  -- What the scheduler calls; an error is only logged.
  unfoldable pub tick : Bool → Run t (Unit {0})
  unfolding maybe_refresh
  tick try_lock s =
      let (r, s') = maybe_refresh try_lock s in
      (elim r [ ok _ ↦ ok tt | err e ↦ ok tt | panic ↦ panic ], s')

  -- What changes the server's state once it has started.
  pub data Event : Type 0 where
    on_acquired : Bool → Event
    on_lost : Bool → Bool → Event
    on_tick : Bool → Event

  unfoldable pub handle : Event → Server t → Server t
  unfolding acquired lost tick
  handle (on_acquired b) s = (acquired b s).1
  handle (on_lost x b) s = (lost x b s).1
  handle (on_tick b) s = (tick b s).1

  unfoldable pub handle_all : List Event → Server t → Server t
  handle_all [] s = s
  handle_all (e ∷ es) s = handle_all es (handle e s)

  -- When the lease is lost and the refresh that follows gets the lock and succeeds, over a steady store
  -- that lists some names, no collection whose scope is the cluster has a job.
  pub lost-cluster :
      (s : Server t) (ns : List String) (name : String) (c : Collection)
      → IsSteady t.store s.store
      → (t.store.get_collection_names s.store).0 ≡ ok ns
      → (lost false true s).0 ≡ ok tt
      → (t.store.get_collection name s.store).0 ≡ ok (some c)
      → (c.scope == cluster) ≡ true
      → lookup name (lost false true s).1.jobs ≡ none
  unfolding lost set_lease_holder
  lost-cluster s ns name c steady lists done found scoped =
      (refresh-Refreshed t (record s { lease_holder = false }) ns steady lists done).dropped name
        (ground arith)
