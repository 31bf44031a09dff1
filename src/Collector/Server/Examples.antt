-- ===== src/Collector/Server/Examples.antt =====
-- server.go over a store in memory and the sample libraries.
use visus.Prelude.{
  ◌++◌, ℕ, String, ◌∙◌, ◌≡◌, ◌≤◌, refl, Bool, true, false, none, some, List, [], ◌∷◌, ◌⊎◌, inl, inr,
  arith, string_le, sort, string_eq, nat_eq, contains, sym,
}
use visus.Result.{ok, err}
use visus.Dict.{lookup}
use visus.Store.Types.{Collection, IsSteady}
use visus.Store.Memory.{Memory, memory_store, get_collection_names, get_collection}
use visus.Store.Memory.Steady.{memory-IsSteady}
use visus.Store.Memory.Sample.{requests, filled, filled-IsConsistent}
use visus.Sample.{sample_prometheus, sample_lru, sample_scheduler, sample_scheduler-laws}
use visus.Collector.Build.{from_collection, add_metric, bare}
use visus.Collector.Build.Metrics.{Builds, from_collection-Builds}
use visus.Collector.Sample.{requests_collector, builds_requests}
use visus.Collector.Server.{
  set_lease_holder, Parts, Server, ScheduledJob, locked_refresh, reschedule,
}
use visus.Collector.Server.Current.{AcceptedAt, reached}
use visus.Collector.Server.Refresh.{Refreshed, refresh-Refreshed, refresh_current}
use visus.Collector.Server.Leaks.{IsTidy, refresh-IsTidy, reschedule_dead_job}
use visus.Collector.Server.Outcome.{refresh_outcome, outcome}
use visus.Collector.Server.Lease.{
  on_acquired, on_lost, on_tick, handle_all, handle, lost, lost-cluster,
}
use visus.Collector.Server.Stable.{AllSettled, refresh_stable}

abbrev parts : Parts
parts = record {
  S = Memory;
  store = memory_store;
  prometheus = sample_prometheus;
  lru = sample_lru;
  gocron = sample_scheduler;
}

abbrev start : Memory → Bool → Server parts
start m holder = record {
  store = m;
  world = ([], λ _ _. false);
  scheduler = (1, 0 ∷ []);
  lease_holder = holder;
  jobs = [];
  refresh_errors = 0;
  refresh_counts = 0;
}

abbrev names : List String
names = "aborts" ∷ "requests" ∷ []

lists_names : (get_collection_names filled).0 ≡ ok names
unfolding get_collection_names sort string_le
lists_names = refl

steady : IsSteady memory_store filled
steady = memory-IsSteady filled filled-IsConsistent

from_collection-Builds_example :
    Builds sample_prometheus sample_lru 0 requests.metrics
      (bare sample_prometheus sample_lru requests)
      requests_collector
from_collection-Builds_example =
    from_collection-Builds sample_prometheus sample_lru requests requests_collector
      ([], λ _ _. false) (builds_requests ([], λ _ _. false))

-- Its frequency is what the scheduler is asked for, and the registry is as it was.
requests-AcceptedAt :
    (before after : List String)
    → names ≡ before ++ ("requests" ∷ after)
    → AcceptedAt parts requests (reached parts before (start filled true))
requests-AcceptedAt before after e =
    let w = (reached parts before (start filled true)).world in
    (requests_collector, builds_requests w, refl)

-- The table of the holder of the lease.
abbrev running : Server parts
running = record (start filled true) {
  scheduler = (3, 2 ∷ 1 ∷ 0 ∷ []);
  jobs =
      ("requests", record { collector = requests_collector; job = 1 })
      ∷ ("aborts", record { collector = record requests_collector { name = "aborts" }; job = 2 })
      ∷ [];
}

succeeds : (holder : Bool) → (locked_refresh parts (start filled holder)).0 ≡ ok tt
unfolding get_collection lookup
succeeds holder = refresh_outcome parts (start filled holder) steady ∙ outcome_ok holder
  where
    outcome_ok :
        (holder : Bool)
        → outcome parts (start filled holder) (get_collection_names filled).0 ≡ ok tt
    outcome_ok h = rw lists_names refl

refresh-Refreshed_example :
    Refreshed parts names (start filled false) (locked_refresh parts (start filled false)).1
refresh-Refreshed_example =
    refresh-Refreshed parts (start filled false) names steady lists_names (succeeds false)

refresh_current_example :
    (j : ScheduledJob parts) × (lookup "requests" (locked_refresh parts (start filled true)).1.jobs
      ≡ some j)
    × (7 ≤ j.collector.last_modified)
unfolding get_collection lookup get_collection_names
refresh_current_example =
    refresh_current parts (start filled true) names steady lists_names (succeeds true) "requests"
      requests requests-AcceptedAt refl refl refl

abbrev Foreign : ℕ → Type 0
Foreign j = j ≡ 0

active_jobs : (i : ℕ) → contains (2 ∷ 1 ∷ 0 ∷ []) i ≡ true → (i ≡ 0) ⊎ ((i ≡ 1) ⊎ (i ≡ 2))
active_jobs i h = ground arith

running-IsTidy : IsTidy parts sample_scheduler-laws Foreign running
unfolding lookup
running-IsTidy = record {
  tabled = λ i a. elim (active_jobs i a) [
    | inl z ↦ inl z
    | inr (inl z) ↦
        inr ("requests", record { collector = requests_collector; job = 1 }, refl, sym z)
    | inr (inr z) ↦ inr (
      "aborts",
      record { collector = record requests_collector { name = "aborts" }; job = 2 },
      refl,
      sym z,
    )
  ];
  distinct = (refl, (refl, tt));
}

refresh-IsTidy_example : IsTidy parts sample_scheduler-laws Foreign (locked_refresh parts running).1
refresh-IsTidy_example = refresh-IsTidy parts sample_scheduler-laws Foreign running running-IsTidy

-- Without the lock the events only set the flag.
flagged :
    handle_all parts (on_acquired false ∷ on_tick false ∷ on_lost true false ∷ []) running
    ≡ record running { lease_holder = false }
unfolding handle_all set_lease_holder handle
flagged = refl

lost_succeeds : (lost parts false true running).0 ≡ ok tt
unfolding lost get_collection lookup locked_refresh set_lease_holder
lost_succeeds =
    refresh_outcome parts (record running { lease_holder = false }) steady ∙ rw lists_names refl

lost-cluster_example : lookup "requests" (lost parts false true running).1.jobs ≡ none
unfolding get_collection lookup
lost-cluster_example =
    lost-cluster parts running names "requests" requests steady lists_names lost_succeeds refl refl

refresh_outcome_example :
    (locked_refresh parts running).0 ≡ outcome parts running (get_collection_names filled).0
refresh_outcome_example = refresh_outcome parts running steady

settled : AllSettled parts running names
unfolding get_collection lookup
settled = (
  record { answered = refl; current = λ c q w. ground arith },
  (record { answered = refl; current = λ c q w. ground arith }, tt),
)

refresh_stable_example :
    locked_refresh parts running ≡ (ok tt, record running { refresh_counts = 1 })
unfolding get_collection lookup
refresh_stable_example =
    refresh_stable parts running names steady lists_names settled (refl, (refl, tt))

-- A configuration that came later, with a metric of a kind that is not known.
abbrev broken : Collection
broken = record requests {
  last_modified = record { time = 9; valid = true };
  metrics = record { name = "count"; kind = "summary"; help = "requests" } ∷ [];
}

broken_fails :
    (w : sample_prometheus.World)
    → (from_collection sample_prometheus sample_lru broken w).0 ≡ err "unsupported metric kind"
unfolding from_collection add_metric
broken_fails w = refl

reschedule_dead_job_example :
    (lookup "requests" (reschedule parts broken running).1.jobs
      ≡ some (record { collector = requests_collector; job = 1 }))
    × (sample_scheduler.active 1 (reschedule parts broken running).1.scheduler ≡ false)
unfolding lookup
reschedule_dead_job_example =
    reschedule_dead_job parts sample_scheduler-laws Foreign broken running
      (record { collector = requests_collector; job = 1 }) "unsupported metric kind" refl
      (omega arith) broken_fails
