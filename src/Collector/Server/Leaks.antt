-- ===== src/Collector/Server/Leaks.antt =====
-- server.go: the jobs of the scheduler against the table.
use visus.Prelude.{
  String, ◌≡◌, ◌≢◌, ◌<◌, refl, sym, ◌∙◌, true, false, ◌⊎◌, Option, none, some, List, [], ◌∷◌, ◌==◌,
  string_eq, if◌then◌else◌, contains, Distinct, ==_refl, arith, inl, inr, Bool-cases, Option-cases,
}
use visus.Result.{Result, ok, err, panic, continue, attempted, continue_inv}
use visus.Dict.{
  Dict, lookup, lookup-insert, lookup-remove, keys, remove-Distinct, insert-Distinct, Found,
  Found-self, Found-remove,
}
use visus.Store.Types.{Collection}
use visus.External.Scheduler.{SchedulerLaws}
use visus.Collector.Types.{Collector}
use visus.Collector.Build.{from_collection}
use visus.Collector.Server.{
  Parts, Server, ScheduledJob, up_to_date, drop_job, unschedule, enter, schedule, reschedule,
  consider, consider_all, cleanup_loop, cleanup_jobs, locked_refresh, with_names,
}
use visus.Collector.Server.Jobs.{consider-cases, asked}

module _ (t : Parts) (laws : SchedulerLaws t.gocron) (Foreign : t.gocron.Job → Type 0) where
  -- The table has the job under some name.
  abbrev pub Tabled : t.gocron.Job → Dict String (ScheduledJob t) → Type 0
  Tabled i jobs = (k : String) × (j : ScheduledJob t) × (lookup k jobs ≡ some j) × (j.job ≡ i)

  -- Every job that the scheduler will run is in the table, or was never the collector's.
  pub record IsTidy (s : Server t) : Type 0 where
    pub tabled :
        (i : t.gocron.Job) → t.gocron.active i s.scheduler ≡ true → Foreign i ⊎ Tabled i s.jobs
    pub distinct : Distinct (keys s.jobs)

  still-active :
      (i j : t.gocron.Job) (st : t.gocron.State)
      → t.gocron.active i (t.gocron.remove_by_reference j st) ≡ true
      → (i ≢ j) × (t.gocron.active i st ≡ true)
  still-active i j st h =
      let ne : i ≢ j = λ e. cc (laws.remove_self j st) in
      (ne, sym (laws.remove_other i j st ne) ∙ h)

  -- One entry's job is stopped, and the entry is deleted or overwritten.
  IsTidy-drop :
      (name : String) (v : ScheduledJob t) (s : Server t)
      → lookup name s.jobs ≡ some v
      → IsTidy s
      → IsTidy (drop_job t name v s).1
  unfolding drop_job
  IsTidy-drop name v s q h = record {
    tabled = λ i a.
        let (ne, b) = still-active i v.job s.scheduler a in
        elim (h.tabled i b) [
          | inl f ↦ inl f
          | inr (k, j, e, r) ↦
              inr (
                k,
                j,
                ground (arith, lookup-remove name k s.jobs, string_eq.same_iff name k, ne),
                r,
              )
        ];
    distinct = remove-Distinct name s.jobs h.distinct;
  }

  IsTidy-cleanup_loop :
      (keep : List String) (rest : Dict String (ScheduledJob t)) (s : Server t)
      → Distinct (keys rest)
      → Found s.jobs rest
      → IsTidy s
      → IsTidy (cleanup_loop t keep rest s)
  unfolding cleanup_loop
  IsTidy-cleanup_loop keep [] s d f h = h
  IsTidy-cleanup_loop keep ((n, v) ∷ rest) s d f h = elim (Bool-cases (contains keep n)) [
    | inl p ↦ rw p (IsTidy-cleanup_loop keep rest s d.1 f.1 h)
    | inr p ↦ rw p (
        IsTidy-cleanup_loop keep rest (drop_job t n v s).1 d.1 (Found-remove n s.jobs rest d.0 f.1)
          (IsTidy-drop n v s f.0 h))
  ]

  IsTidy-cleanup_jobs :
      (keep : List String) (s : Server t) → IsTidy s → IsTidy (cleanup_jobs t keep s)
  unfolding cleanup_jobs
  IsTidy-cleanup_jobs keep s h =
      IsTidy-cleanup_loop keep s.jobs s h.distinct (Found-self s.jobs h.distinct) h

  -- What is active is foreign, or in the table under another name than the given one.
  record IsLoose (name : String) (s : Server t) : Type 0 where
    tabled :
        (i : t.gocron.Job)
        → t.gocron.active i s.scheduler ≡ true
        → Foreign i
          ⊎ ((k : String) × (j : ScheduledJob t) × (lookup k s.jobs ≡ some j)
              × (j.job ≡ i)
              × ((name == k) ≡ false))
    distinct : Distinct (keys s.jobs)

  IsLoose-IsTidy : (name : String) (s : Server t) → IsLoose name s → IsTidy s
  IsLoose-IsTidy name s h = record {
    tabled = λ i a. elim (h.tabled i a) [ inl f ↦ inl f | inr (k, j, e, r, _) ↦ inr (k, j, e, r) ];
    distinct = h.distinct;
  }

  -- So it is once the old job of the name is stopped.
  unschedule-IsLoose :
      (name : String) (s : Server t) → IsTidy s → IsLoose name (unschedule t (lookup name s.jobs) s)
  unfolding unschedule
  unschedule-IsLoose name s h = elim (Option-cases (lookup name s.jobs)) [
    | inl p ↦ rw p (record {
      tabled = λ i a. elim (h.tabled i a) [
        | inl f ↦ inl f
        | inr (k, j, e, r) ↦ inr (k, j, e, r, ground (arith, string_eq.same_iff name k))
      ];
      distinct = h.distinct;
    })
    | inr (v, p) ↦ rw p (record {
      tabled = λ i a.
          let (ne, b) = still-active i v.job s.scheduler a in
          elim (h.tabled i b) [
            | inl f ↦ inl f
            | inr (k, j, e, r) ↦ inr (k, j, e, r, ground (arith, string_eq.same_iff name k, ne))
          ];
      distinct = h.distinct;
    })
  ]

  -- A new job is entered under the name, which no active job has.
  enter-IsTidy :
      (c : Collection) (x : Collector t.prometheus t.lru) (s : Server t) (o : Option t.gocron.Job)
      → IsLoose c.name s
      → (t.gocron.every x.frequency x s.scheduler).0 ≡ o
      → IsTidy
          (enter t c x o (record s { scheduler = (t.gocron.every x.frequency x s.scheduler).1 })).1
  unfolding enter
  enter-IsTidy c x s none h q = record {
    tabled = λ i a.
        (IsLoose-IsTidy c.name s h).tabled i
          (sym (laws.every-none x.frequency x s.scheduler i q) ∙ a);
    distinct = h.distinct;
  }
  enter-IsTidy c x s (some new) h q = record {
    tabled = λ i a. elim (laws.every-some x.frequency x s.scheduler new i q a) [
      | inl e ↦ inr (
        c.name,
        record { collector = x; job = new },
        rw (lookup-insert c.name c.name _ s.jobs, ==_refl c.name),
        sym e,
      )
      | inr b ↦ elim (h.tabled i b) [
        | inl f ↦ inl f
        | inr (k, j, e, r, ne) ↦ inr (k, j, grind (arith, lookup-insert), r)
      ]
    ];
    distinct = insert-Distinct c.name _ s.jobs h.distinct;
  }

  IsLoose-world :
      (name : String) (s : Server t) (w : t.prometheus.World)
      → IsLoose name s
      → IsLoose name (record s { world = w })
  IsLoose-world name s w h = record { tabled = h.tabled; distinct = h.distinct }

  schedule-IsTidy :
      (c : Collection) (o : Option (Collector t.prometheus t.lru)) (s : Server t)
      → IsLoose c.name s
      → IsTidy (schedule t c o s).1
  unfolding schedule
  schedule-IsTidy c none s h = IsLoose-IsTidy c.name s h
  schedule-IsTidy c (some x) s h =
      enter-IsTidy c x s (t.gocron.every x.frequency x s.scheduler).0 h refl

  -- Whatever building the collector came to.
  built-IsTidy :
      (c : Collection) (r : Result (Collector t.prometheus t.lru)) (s : Server t)
      → IsLoose c.name s
      → IsTidy (continue (attempted r) (λ b. schedule t c b) s).1
  built-IsTidy c (ok x) s h = schedule-IsTidy c (some x) s h
  built-IsTidy c (err e) s h = schedule-IsTidy c none s h
  built-IsTidy c panic s h = IsLoose-IsTidy c.name s h

  reschedule-IsTidy : (c : Collection) (s : Server t) → IsTidy s → IsTidy (reschedule t c s).1
  unfolding reschedule
  reschedule-IsTidy c s h = elim (Bool-cases (up_to_date t (lookup c.name s.jobs) c)) [
    | inl p ↦ rw p h
    | inr p ↦ rw p (built-IsTidy c _ _ (IsLoose-world c.name _ _ (unschedule-IsLoose c.name s h)))
  ]

  consider-IsTidy : (n : String) (s : Server t) → IsTidy s → IsTidy (consider t n s).1
  consider-IsTidy n s h =
      let h' : IsTidy (asked t n s) = record { tabled = h.tabled; distinct = h.distinct } in
      elim (consider-cases t n s) [
        | inl (e, _) ↦ rw e h'
        | inr (c, _, _, e) ↦ rw e (reschedule-IsTidy c (asked t n s) h')
      ]

  consider_all-IsTidy :
      (ns keep : List String) (s : Server t) → IsTidy s → IsTidy (consider_all t ns keep s).1
  unfolding consider_all
  consider_all-IsTidy [] keep s h = h
  consider_all-IsTidy (n ∷ ns) keep s h =
      let h1 = consider-IsTidy n s h in
      continue_inv IsTidy (consider t n s).0 (λ b. consider_all t ns (if b then n ∷ keep else keep))
        (consider t n s).1 h1
        (λ b. consider_all-IsTidy ns (if b then n ∷ keep else keep) (consider t n s).1 h1)

  pub IsTidy-ext :
      (s s' : Server t) → s'.scheduler ≡ s.scheduler → s'.jobs ≡ s.jobs → IsTidy s → IsTidy s'
  IsTidy-ext s s' p q h = record {
    tabled = λ i a. rw q (h.tabled i (rw p at a));
    distinct = rw q h.distinct;
  }

  with_names-IsTidy :
      (r : Result (List String)) (s : Server t) → IsTidy s → IsTidy (with_names t r s).1
  unfolding with_names
  with_names-IsTidy (ok names) s h =
      let h1 = consider_all-IsTidy names [] s h in
      continue_inv IsTidy (consider_all t names [] s).0 _ (consider_all t names [] s).1 h1 (λ keep.
        IsTidy-ext _ _ refl refl (IsTidy-cleanup_jobs keep (consider_all t names [] s).1 h1))
  with_names-IsTidy (err e) s h = IsTidy-ext s _ refl refl h
  with_names-IsTidy panic s h = h

  -- A refresh leaks no job, whatever comes of it, over a scheduler that keeps its documented laws: if
  -- every job that the scheduler will run is in the table or is foreign, and no name is twice in the
  -- table, then so it is after the refresh.
  pub refresh-IsTidy : (s : Server t) → IsTidy s → IsTidy (locked_refresh t s).1
  unfolding locked_refresh
  refresh-IsTidy s h =
      with_names-IsTidy (t.store.get_collection_names s.store).0 _ (IsTidy-ext s _ refl refl h)

  -- A collection that was modified since the collector in the table, and from which no collector can
  -- be built, loses its job, over a scheduler that keeps its documented laws: the scheduler will not
  -- run the old job, but the table still has it.
  pub reschedule_dead_job :
      (c : Collection) (s : Server t) (old : ScheduledJob t) (e : String)
      → lookup c.name s.jobs ≡ some old
      → old.collector.last_modified < c.last_modified.time
      → ((w : t.prometheus.World) → (from_collection t.prometheus t.lru c w).0 ≡ err e)
      → (lookup c.name (reschedule t c s).1.jobs ≡ some old)
        × (t.gocron.active old.job (reschedule t c s).1.scheduler ≡ false)
  unfolding reschedule
  reschedule_dead_job c s old e q later fails =
      let f = fails s.world in (ground arith, ground (arith, laws.remove_self old.job s.scheduler))
