-- ===== src/Collector/Server.antt =====
-- internal/collector/server.go: the table of scheduled collectors and its refresh from the store.
-- The scheduler is not nil. Each method runs with the mutex held, as `Refresh` and `maybeRefresh`
-- take it for all of `lockedRefresh`.
pub mod Jobs
pub mod Current
pub mod Refresh
pub mod Leaks
pub mod Outcome
pub mod Stable
pub mod Lease
mod Examples
use visus.Prelude.{
  ℕ, suc, String, ◌≡◌, Bool, true, false, not, ◌&&◌, ◌||◌, Option, none, some, List, [], ◌∷◌, ◌==◌,
  string_eq, if◌then◌else◌, ltb, contains, ℤ,
}
use visus.Result.{Result, Op, ok, err, panic, deref, pure, lift, gets, modify, attempt, ◌>>=◌, ◌>>◌}
use visus.Dict.{Dict, lookup, insert, remove}
use visus.Store.Types.{Store, Collection, cluster}
use visus.External.Prometheus.{Prometheus}
use visus.External.Scheduler.{Scheduler}
use visus.External.Lru.{Lru}
use visus.Collector.Types.{Collector, CacheKey, CacheValue}
use visus.Collector.Build.{from_collection, unregister}

-- What the server is built over.
pub record Parts : Type 1 where
  pub S : Type 0
  pub store : Store S
  pub prometheus : Prometheus
  pub lru : Lru CacheKey (CacheValue prometheus)
  pub gocron : Scheduler (Collector prometheus lru)

pub record ScheduledJob (t : Parts) : Type 0 where
  pub collector : Collector t.prometheus t.lru
  pub job : t.gocron.Job

pub record Server (t : Parts) : Type 0 where
  pub store : t.S
  pub world : t.prometheus.World
  pub scheduler : t.gocron.State
  pub lease_holder : Bool
  pub jobs : Dict String (ScheduledJob t)
  pub refresh_errors : ℕ
  pub refresh_counts : ℕ

module _ (t : Parts) where
  abbrev pub Run {ℓ} : Type ℓ → Type ℓ
  Run A = Op (Server t) A

  -- A call of the store, of the registry, and of the scheduler, in the server's state.
  abbrev pub on_store {ℓ} : {A : Type ℓ} → Op t.S A → Run A
  on_store call s = let (r, st) = call s.store in (r, record s { store = st })

  abbrev pub on_world {ℓ} : {A : Type ℓ} → Op t.prometheus.World A → Run A
  on_world call s = let (r, w) = call s.world in (r, record s { world = w })

  abbrev pub on_scheduler {ℓ} : {A : Type ℓ} → (t.gocron.State → A × t.gocron.State) → Run A
  on_scheduler call s = let (r, st) = call s.scheduler in (ok r, record s { scheduler = st })

  unfoldable pub set_lease_holder : Bool → Server t → Server t
  set_lease_holder holder s = record s { lease_holder = holder }

  unfoldable pub add_job : String → Collector t.prometheus t.lru → t.gocron.Job → Run (Unit {0})
  add_job name coll job =
      modify (λ s. record s { jobs = insert name (record { collector = coll; job = job }) s.jobs })

  -- `RemoveByReference`, `Unregister` and `delete`.
  unfoldable pub drop_job : String → ScheduledJob t → Run (Unit {0})
  drop_job name value = modify λ s. record s {
    scheduler = t.gocron.remove_by_reference value.job s.scheduler;
    world = unregister t.prometheus t.lru value.collector s.world;
    jobs = remove name s.jobs;
  }

  -- The loop of `lockedCleanupJobs`, over the entries that the table had at its start.
  unfoldable pub cleanup_loop : List String → Dict String (ScheduledJob t) → Server t → Server t
  unfolding drop_job
  cleanup_loop keep [] s = s
  cleanup_loop keep ((name, value) ∷ rest) s =
      cleanup_loop keep rest (if contains keep name then s else (drop_job name value s).1)

  unfoldable pub cleanup_jobs : List String → Server t → Server t
  cleanup_jobs keep s = cleanup_loop keep s.jobs s

  -- `!coll.Enabled || (coll.Scope == store.Cluster && !s.mu.leaseHolder)`
  abbrev pub skipped : Bool → Collection → Bool
  skipped holder coll = not coll.enabled || (coll.scope == cluster && not holder)

  -- `found && !existing.collector.GetLastModified().Before(coll.LastModified.Time)`
  abbrev pub up_to_date : Option (ScheduledJob t) → Collection → Bool
  up_to_date none coll = false
  up_to_date (some existing) coll =
      not (ltb existing.collector.last_modified coll.last_modified.time)

  unfoldable pub unschedule : Option (ScheduledJob t) → Server t → Server t
  unschedule none s = s
  unschedule (some existing) s = record s {
    scheduler = t.gocron.remove_by_reference existing.job s.scheduler;
  }

  -- `s.lockedAddJob(coll.Name, collctr, job)`, unless scheduling failed. Errors are logged only.
  unfoldable pub enter :
      Collection → Collector t.prometheus t.lru → Option t.gocron.Job → Run (Unit {0})
  unfolding add_job
  enter coll collctr none = pure tt
  enter coll collctr (some job) = add_job coll.name collctr job

  unfoldable pub schedule : Collection → Option (Collector t.prometheus t.lru) → Run (Unit {0})
  unfolding enter
  schedule coll none = pure tt
  schedule coll (some collctr) = do
    job ← on_scheduler (t.gocron.every collctr.frequency collctr)
    enter coll collctr job

  -- A collection that is to run, from the look at the table on.
  unfoldable pub reschedule : Collection → Run (Unit {0})
  unfolding schedule unschedule
  reschedule coll = do
    existing ← gets (λ s. lookup coll.name s.jobs)
    if up_to_date existing coll then pure tt else do
      modify (unschedule existing)
      built ← attempt (on_world (from_collection t.prometheus t.lru coll))
      schedule coll built

  -- The body of the loop over the names: whether the name is kept.
  unfoldable pub consider : String → Run Bool
  consider name = do
    result ← attempt (on_store (t.store.get_collection name))
    elim result [
      | none ↦ pure false
      | some found ↦ do
        coll ← lift (deref found)
        holder ← gets (λ s. s.lease_holder)
        if skipped holder coll then pure false else do reschedule coll; pure true
    ]

  unfoldable pub consider_all : List String → List String → Run (List String)
  consider_all [] keep = pure keep
  consider_all (name ∷ names) keep = do
    kept ← consider name
    consider_all names (if kept then name ∷ keep else keep)

  -- The loop over the names, the cleanup, and the count of the refresh.
  unfoldable pub refresh_names : List String → Run (Unit {0})
  refresh_names names = do
    keep ← consider_all names []
    modify (cleanup_jobs keep)
    modify (λ s. record s { refresh_counts = suc s.refresh_counts })

  unfoldable pub count_error : Server t → Server t
  count_error s = record s { refresh_errors = suc s.refresh_errors }

  unfoldable pub with_names : Result (List String) → Run (Unit {0})
  unfolding refresh_names count_error
  with_names (ok names) = refresh_names names
  with_names (err e) = do modify count_error; lift (err e)
  with_names panic = lift panic

  unfoldable pub locked_refresh : Run (Unit {0})
  unfolding with_names
  locked_refresh s =
      let (names, st) = t.store.get_collection_names s.store in
      with_names names (record s { store = st })
