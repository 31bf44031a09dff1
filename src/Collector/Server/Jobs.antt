-- ===== src/Collector/Server/Jobs.antt =====
-- server.go: which jobs a refresh leaves in the table.
use visus.Prelude.{
  String, ◌≡◌, refl, sym, ap, ◌∙◌, subst, Bool, true, false, not, ◌&&◌, ◌||◌, Option, none, some,
  List, [], ◌∷◌, ◌==◌, string_eq, if◌then◌else◌, contains, arith, is_some, ◌⊎◌, inl, inr,
  Bool-cases,
}
use visus.Result.{Result, ok, err, panic, >>=-eq-ok}
use visus.Dict.{Dict, keys, lookup, lookup-insert, lookup-remove, contains-keys}
use visus.Store.Types.{Collection, IsSteady, cluster}
use visus.Collector.Server.{
  Parts, Server, ScheduledJob, skipped, consider, consider_all, cleanup_loop, cleanup_jobs,
  reschedule, drop_job,
}

abbrev pub is_found {ℓ} : {A : Type ℓ} → Result (Option A) → Bool
is_found (ok (some a)) = true
is_found _ = false

pub found-cases {ℓ} :
    {A : Type ℓ} (r : Result (Option A)) → ((a : A) × (r ≡ ok (some a))) ⊎ (is_found r ≡ false)
found-cases (ok (some a)) = inl (a, refl)
found-cases (ok none) = inr refl
found-cases (err e) = inr refl
found-cases panic = inr refl

module _ (t : Parts) where
  -- What the store answers for a name, and whether a node is to run it: what is enabled, and, if its
  -- scope is the cluster, on the holder of the lease alone.
  abbrev pub runs : Bool → Result (Option Collection) → Bool
  runs holder (ok (some c)) = c.enabled && (not (c.scope == cluster) || holder)
  runs holder _ = false

  abbrev pub wanted : Server t → String → Bool
  wanted s n = runs s.lease_holder (t.store.get_collection n s.store).0

  lookup-cleanup_loop :
      (keep : List String) (rest : Dict String (ScheduledJob t)) (s : Server t) (k : String)
      → lookup k (cleanup_loop t keep rest s).jobs
        ≡ (if not (contains keep k) && contains (keys rest) k then none else lookup k s.jobs)
  unfolding cleanup_loop
  lookup-cleanup_loop keep [] s k = ground arith
  lookup-cleanup_loop keep ((n, v) ∷ rest) s k = ground (
    arith,
    lookup-cleanup_loop keep rest s k,
    lookup-cleanup_loop keep rest (drop_job t n v s).1 k,
    lookup-remove n k s.jobs,
    string_eq.same_iff n k,
  )

  pub lookup-cleanup_jobs :
      (keep : List String) (s : Server t) (k : String)
      → lookup k (cleanup_jobs t keep s).jobs ≡ (if contains keep k then lookup k s.jobs else none)
  unfolding cleanup_jobs
  lookup-cleanup_jobs keep s k =
      ground (arith, lookup-cleanup_loop keep s.jobs s k, contains-keys k s.jobs)

  -- The cleanup changes the table, the registry and the scheduler alone.
  pub record Cleaned (s s' : Server t) : Type 0 where
    pub store : s'.store ≡ s.store
    pub holder : s'.lease_holder ≡ s.lease_holder
    pub counts : s'.refresh_counts ≡ s.refresh_counts
    pub errors : s'.refresh_errors ≡ s.refresh_errors

  cleanup_loop-Cleaned :
      (keep : List String) (rest : Dict String (ScheduledJob t)) (s : Server t)
      → Cleaned s (cleanup_loop t keep rest s)
  unfolding cleanup_loop
  cleanup_loop-Cleaned keep [] s = record {
    store = refl;
    holder = refl;
    counts = refl;
    errors = refl;
  }
  cleanup_loop-Cleaned keep ((n, v) ∷ rest) s =
      ground (
        arith,
        cleanup_loop-Cleaned keep rest s,
        cleanup_loop-Cleaned keep rest (drop_job t n v s).1,
      )

  pub cleanup_jobs-Cleaned : (keep : List String) (s : Server t) → Cleaned s (cleanup_jobs t keep s)
  unfolding cleanup_jobs
  cleanup_jobs-Cleaned keep s = cleanup_loop-Cleaned keep s.jobs s

  -- `reschedule` leaves the store, the lease flag and the other entries alone, and drops no entry.
  pub record Spares (name : String) (s s' : Server t) : Type 0 where
    pub store : s'.store ≡ s.store
    pub holder : s'.lease_holder ≡ s.lease_holder
    pub others : (k : String) → (name == k) ≡ false → lookup k s'.jobs ≡ lookup k s.jobs
    pub kept : (k : String) → is_some (lookup k s.jobs) ≡ true → is_some (lookup k s'.jobs) ≡ true
    pub counts : s'.refresh_counts ≡ s.refresh_counts
    pub errors : s'.refresh_errors ≡ s.refresh_errors

  pub Spares-reschedule : (c : Collection) (s : Server t) → Spares c.name s (reschedule t c s).1
  unfolding reschedule
  Spares-reschedule c s = record {
    store = ground arith;
    holder = ground arith;
    others = λ k h. grind (arith, lookup-insert);
    kept = λ k h. grind (arith, lookup-insert);
    counts = ground arith;
    errors = ground arith;
  }

  pub consider-wanted :
      (n : String) (s : Server t) (b : Bool) → (consider t n s).0 ≡ ok b → b ≡ wanted s n
  unfolding consider
  consider-wanted n s b h = ground arith

  -- The server once the store was asked for a name.
  abbrev pub asked : String → Server t → Server t
  asked n s = record s { store = (t.store.get_collection n s.store).1 }

  -- A name is skipped, or its collection is scheduled.
  pub consider-cases :
      (n : String) (s : Server t)
      → (((consider t n s).1 ≡ asked n s) × (wanted s n ≡ false))
        ⊎ ((c : Collection) × ((t.store.get_collection n s.store).0 ≡ ok (some c))
            × (wanted s n ≡ true)
            × ((consider t n s).1 ≡ (reschedule t c (asked n s)).1))
  unfolding consider
  consider-cases n s = elim (found-cases (t.store.get_collection n s.store).0) [
    | inl (c, e) ↦ elim (Bool-cases (skipped t s.lease_holder c)) [
      | inl p ↦ inl (ground arith, ground arith)
      | inr p ↦ inr (c, e, ground arith, ground arith)
    ]
    | inr e ↦ inl (ground arith, ground arith)
  ]

  pub Spares-consider :
      (n : String) (s : Server t) → IsSteady t.store s.store → Spares n s (consider t n s).1
  Spares-consider n s steady = elim (consider-cases n s) [
    | inl (e, _) ↦ rw e (record {
      store = steady.reads n;
      holder = refl;
      others = λ k h. refl;
      kept = λ k h. h;
      counts = refl;
      errors = refl;
    })
    | inr (c, a, _, e) ↦ rw e (
        let r = Spares-reschedule c (asked n s) in
        record {
          store = r.store ∙ steady.reads n;
          holder = r.holder;
          others = λ k h. r.others k (ap (λ x. x == k) (steady.named n c a) ∙ h);
          kept = r.kept;
          counts = r.counts;
          errors = r.errors;
        })
  ]

  -- The loop keeps the names that are wanted, and nothing but the job table, the registry and the
  -- scheduler change.
  pub record Considered (ns keep keep' : List String) (s s' : Server t) : Type 0 where
    pub store : s'.store ≡ s.store
    pub holder : s'.lease_holder ≡ s.lease_holder
    pub keeps : (k : String) → contains keep' k ≡ (contains keep k || (contains ns k && wanted s k))
    pub others : (k : String) → contains ns k ≡ false → lookup k s'.jobs ≡ lookup k s.jobs
    pub kept : (k : String) → is_some (lookup k s.jobs) ≡ true → is_some (lookup k s'.jobs) ≡ true
    pub counts : s'.refresh_counts ≡ s.refresh_counts
    pub errors : s'.refresh_errors ≡ s.refresh_errors

  pub wanted-eq :
      (s s' : Server t) (k : String)
      → s'.store ≡ s.store
      → s'.lease_holder ≡ s.lease_holder
      → wanted s' k ≡ wanted s k
  wanted-eq s s' k p q = cc

  pub consider_all-Considered :
      (ns keep keep' : List String) (s : Server t)
      → IsSteady t.store s.store
      → (consider_all t ns keep s).0 ≡ ok keep'
      → Considered ns keep keep' s (consider_all t ns keep s).1
  unfolding consider_all
  consider_all-Considered [] keep keep' s steady h = record {
    store = refl;
    holder = refl;
    keeps = λ k. ground arith;
    others = λ k q. refl;
    kept = λ k q. q;
    counts = refl;
    errors = refl;
  }
  consider_all-Considered (n ∷ ns) keep keep' s steady h =
      let (b, e, q) =
        >>=-eq-ok (consider t n) (λ b. consider_all t ns (if b then n ∷ keep else keep)) s h in
      let s1 = (consider t n s).1 in
      let sp = Spares-consider n s steady in
      let ih =
        consider_all-Considered ns (if b then n ∷ keep else keep) keep' s1
          (subst (IsSteady t.store) (sym sp.store) steady) (ap (λ x. x.0) (sym q) ∙ h) in
      rw q (record {
        store = ih.store ∙ sp.store;
        holder = ih.holder ∙ sp.holder;
        keeps = λ k. ground (
          arith,
          ih.keeps k,
          consider-wanted n s b e,
          wanted-eq s s1 k sp.store sp.holder,
          string_eq.same_iff n k,
        );
        others = λ k z. ground (arith, ih.others k, sp.others k);
        kept = λ k z. ih.kept k (sp.kept k z);
        counts = ih.counts ∙ sp.counts;
        errors = ih.errors ∙ sp.errors;
      })
