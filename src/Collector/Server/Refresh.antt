-- ===== src/Collector/Server/Refresh.antt =====
-- server.go: `lockedRefresh` as a whole.
use visus.Prelude.{
  suc, String, ◌≡◌, ◌≤◌, refl, sym, ap, ◌∙◌, subst, true, false, ◌||◌, ◌&&◌, Option, none, some,
  List, [], ◌∷◌, ◌++◌, string_eq, contains, arith, is_some,
}
use visus.Result.{Result, ok, err, panic}
use visus.Dict.{lookup}
use visus.Store.Types.{Collection, IsSteady}
use visus.Collector.Server.{
  Parts, Server, ScheduledJob, up_to_date, consider_all, cleanup_jobs, locked_refresh,
}
use visus.Collector.Server.Jobs.{
  wanted, consider_all-Considered, lookup-cleanup_jobs, cleanup_jobs-Cleaned, wanted-eq,
}
use visus.Collector.Server.Current.{AcceptedAt, reached, consider_all-current}

module _ (t : Parts) where
  -- The server once the store was asked for the names.
  abbrev pub listed : Server t → Server t
  listed s = record s { store = (t.store.get_collection_names s.store).1 }

  -- How a refresh runs when the store lists the names.
  refresh_cases :
      (s : Server t) (ns : List String)
      → (t.store.get_collection_names s.store).0 ≡ ok ns
      → (locked_refresh t s).0 ≡ ok tt
      → (keep : List String) × ((consider_all t ns [] (listed s)).0 ≡ ok keep)
        × ((locked_refresh t s).1 ≡ (
            let s' = cleanup_jobs t keep (consider_all t ns [] (listed s)).1 in
            record s' { refresh_counts = suc s'.refresh_counts }))
  unfolding locked_refresh
  refresh_cases s ns q h = go (consider_all t ns [] (listed s)).0 refl
    where
      go :
          (r : Result (List String))
          → (consider_all t ns [] (listed s)).0 ≡ r
          → (keep : List String) × ((consider_all t ns [] (listed s)).0 ≡ ok keep)
            × ((locked_refresh t s).1 ≡ (
                let s' = cleanup_jobs t keep (consider_all t ns [] (listed s)).1 in
                record s' { refresh_counts = suc s'.refresh_counts }))
      go (ok keep) e = (keep, e, ground arith)
      go (err x) e = ground arith
      go panic e = ground arith

  -- What a refresh makes of the table: a listed and wanted name keeps its job, and no other name has
  -- one.
  pub record Refreshed (ns : List String) (s s' : Server t) : Type 0 where
    pub dropped : (k : String) → (contains ns k && wanted t s k) ≡ false → lookup k s'.jobs ≡ none
    pub retained :
        (k : String)
        → (contains ns k && wanted t s k) ≡ true
        → is_some (lookup k s.jobs) ≡ true
        → is_some (lookup k s'.jobs) ≡ true
    pub store : s'.store ≡ s.store
    pub holder : s'.lease_holder ≡ s.lease_holder
    pub counts : s'.refresh_counts ≡ suc s.refresh_counts
    pub errors : s'.refresh_errors ≡ s.refresh_errors

  current_job :
      (c : Collection) (o : Option (ScheduledJob t))
      → up_to_date t o c ≡ true
      → (j : ScheduledJob t) × (o ≡ some j) × (c.last_modified.time ≤ j.collector.last_modified)
  current_job c none h = cc
  current_job c (some j) h = (j, refl, ground arith)

  module _ (s : Server t) (ns : List String) (steady : IsSteady t.store s.store)
      (lists : (t.store.get_collection_names s.store).0 ≡ ok ns)
      (done : (locked_refresh t s).0 ≡ ok tt) where
    -- A refresh that succeeds, over a steady store that lists `ns`, leaves the table without a job for a name
    -- that is not both listed and wanted, and with every job of a listed and wanted name (which may
    -- have been replaced); the store and the lease are as before, the refresh is counted, and the
    -- count of errors is as before.
    pub refresh-Refreshed : Refreshed ns s (locked_refresh t s).1
    refresh-Refreshed =
        let (keep, e, q) = refresh_cases s ns lists done in
        let l = listed s in
        let steady' = subst (IsSteady t.store) (sym steady.lists) steady in
        let c = consider_all-Considered t ns [] keep l steady' e in
        let m = (consider_all t ns [] l).1 in
        let d = cleanup_jobs-Cleaned t keep m in
        rw q (record {
          dropped = λ k z. ground (
            arith,
            lookup-cleanup_jobs t keep m k,
            c.keeps k,
            wanted-eq t s l k steady.lists refl,
          );
          retained = λ k z y. ground (
            arith,
            lookup-cleanup_jobs t keep m k,
            c.keeps k,
            c.kept k,
            wanted-eq t s l k steady.lists refl,
          );
          store = d.store ∙ c.store ∙ steady.lists;
          holder = d.holder ∙ c.holder;
          counts = ap suc (d.counts ∙ c.counts);
          errors = d.errors ∙ c.errors;
        })

    -- After a refresh that succeeds, over a steady store that lists some names, a listed and wanted
    -- collection has a job, whose collector is not older than the collection, if the registry accepts
    -- it and the scheduler its interval in the state in which this refresh comes to its name.
    pub refresh_current :
        (k : String) (c : Collection)
        → ((before after : List String)
            → ns ≡ before ++ (k ∷ after)
            → AcceptedAt t c (reached t before (listed s)))
        → contains ns k ≡ true
        → (t.store.get_collection k s.store).0 ≡ ok (some c)
        → wanted t s k ≡ true
        → (j : ScheduledJob t) × (lookup k (locked_refresh t s).1.jobs ≡ some j)
          × (c.last_modified.time ≤ j.collector.last_modified)
    refresh_current k c a z q w =
        let (keep, e, r) = refresh_cases s ns lists done in
        let l = listed s in
        let steady' = subst (IsSteady t.store) (sym steady.lists) steady in
        let w' = wanted-eq t s l k steady.lists refl ∙ w in
        let considered = consider_all-Considered t ns [] keep l steady' e in
        let u =
          consider_all-current t c ns [] keep l k steady' e
            (ap (λ st. (t.store.get_collection k st).0) steady.lists ∙ q) w'
            (ap (λ b. b || up_to_date t (lookup k l.jobs) c) z) a in
        let look : lookup k (locked_refresh t s).1.jobs ≡ lookup k (consider_all t ns [] l).1.jobs =
          ap (λ x. lookup k x.jobs) r
          ∙ ground (
            arith,
            lookup-cleanup_jobs t keep (consider_all t ns [] l).1 k,
            considered.keeps k,
          ) in
        current_job c _ (subst (λ o. up_to_date t o c ≡ true) (sym look) u)
