-- ===== src/Collector/Server/Current.antt =====
-- server.go: a collection that is to run gets a job with its present configuration.
use visus.Prelude.{
  String, ◌≡◌, sym, ap, ◌∙◌, subst, true, ◌||◌, some, List, [], ◌∷◌, ◌++◌, Option, none,
  Option-cases, ◌==◌, string_eq, if◌then◌else◌, contains, arith, is_some, inl, inr, Bool-cases,
}
use visus.Result.{ok, >>=-eq-ok}
use visus.Dict.{lookup, lookup-insert}
use visus.Store.Types.{Collection, IsSteady}
use visus.Collector.Build.{from_collection}
use visus.Collector.Build.Metrics.{from_collection-Builds}
use visus.Collector.Types.{Collector}
use visus.Collector.Server.{
  Parts, Server, ScheduledJob, up_to_date, consider, consider_all, reschedule,
}
use visus.Collector.Server.Jobs.{wanted, asked, wanted-eq, consider-cases, Spares-consider}

module _ (t : Parts) where
  -- The server once the loop has been through these names.
  abbrev pub reached : List String → Server t → Server t
  reached [] s = s
  reached (n ∷ ns) s = reached ns (consider t n s).1

  -- The scheduler without the old job.
  abbrev pub freed : Option (ScheduledJob t) → t.gocron.State → t.gocron.State
  freed none st = st
  freed (some j) st = t.gocron.remove_by_reference j.job st

  -- At this state the registry accepts the collection, and the scheduler its collector with its own
  -- interval.
  abbrev pub AcceptedAt : Collection → Server t → Type 0
  AcceptedAt c s =
      (x : Collector t.prometheus t.lru) × ((from_collection t.prometheus t.lru c s.world).0 ≡ ok x)
      × (is_some (t.gocron.every x.frequency x (freed (lookup c.name s.jobs) s.scheduler)).0 ≡ true)

  reschedule-current :
      (c : Collection) (s : Server t)
      → AcceptedAt c s
      → up_to_date t (lookup c.name (reschedule t c s).1.jobs) c ≡ true
  unfolding reschedule
  reschedule-current c s (x, e, a) =
      let b = from_collection-Builds t.prometheus t.lru c x s.world e in
      elim (Option-cases (lookup c.name s.jobs)) [
        | inl p ↦
            let a' : is_some (t.gocron.every x.frequency x s.scheduler).0 ≡ true = rw p at a in
            grind (arith, p, b.same.last_modified, a', lookup-insert, string_eq.same_iff)
        | inr (j, p) ↦
            let a' : is_some
                  (t.gocron.every x.frequency x (t.gocron.remove_by_reference j.job s.scheduler)).0
                ≡ true =
              rw p at a in
            grind (arith, p, b.same.last_modified, a', lookup-insert, string_eq.same_iff)
      ]

  module _ (c : Collection) where
    consider-current :
        (n : String) (s : Server t)
        → (t.store.get_collection n s.store).0 ≡ ok (some c)
        → c.name ≡ n
        → wanted t s n ≡ true
        → AcceptedAt c s
        → up_to_date t (lookup n (consider t n s).1.jobs) c ≡ true
    consider-current n s q named w a = elim (consider-cases t n s) [
      | inl (_, z) ↦ cc
      | inr (c', q', _, e) ↦
          let same : c' ≡ c = cc in
          rw (e, same)
            (subst (λ k. up_to_date t (lookup k (reschedule t c (asked t n s)).1.jobs) c ≡ true)
              named (reschedule-current c (asked t n s) a))
    ]

    -- The loop makes the job of each wanted name current, and no later round undoes it.
    pub consider_all-current :
        (ns keep keep' : List String) (s : Server t) (k : String)
        → IsSteady t.store s.store
        → (consider_all t ns keep s).0 ≡ ok keep'
        → (t.store.get_collection k s.store).0 ≡ ok (some c)
        → wanted t s k ≡ true
        → (contains ns k || up_to_date t (lookup k s.jobs) c) ≡ true
        → ((before after : List String)
            → ns ≡ before ++ (k ∷ after)
            → AcceptedAt c (reached before s))
        → up_to_date t (lookup k (consider_all t ns keep s).1.jobs) c ≡ true
    unfolding consider_all
    consider_all-current [] keep keep' s k steady h q w z a = z
    consider_all-current (n ∷ ns) keep keep' s k steady h q w z a =
        let (b, e, r) =
          >>=-eq-ok (consider t n) (λ b. consider_all t ns (if b then n ∷ keep else keep)) s h in
        let s1 = (consider t n s).1 in
        let sp = Spares-consider t n s steady in
        rw r (
          consider_all-current ns (if b then n ∷ keep else keep) keep' s1 k
            (subst (IsSteady t.store) (sym sp.store) steady) (ap (λ x. x.0) (sym r) ∙ h)
            (ap (λ st. (t.store.get_collection k st).0) sp.store ∙ q)
            (wanted-eq t s s1 k sp.store sp.holder ∙ w)
            (elim (Bool-cases (n == k)) [
              | inl p ↦
                  subst
                    (λ x.
                      (contains ns k || up_to_date t (lookup k (consider t x s).1.jobs) c) ≡ true)
                    (sym ((string_eq.same_iff n k).0 p))
                    (ground (
                      arith,
                      consider-current k s q (steady.named k c q) w
                          (a [] ns (ap (λ x. x ∷ ns) ((string_eq.same_iff n k).0 p))),
                    ))
              | inr p ↦ ground (arith, sp.others k p)
            ])
            (λ before after e. a (n ∷ before) after (ap (λ ns. n ∷ ns) e)))
