-- ===== src/Collector/Server/Stable.antt =====
-- server.go: a refresh when nothing is new.
use visus.Prelude.{
  suc, String, ◌≡◌, refl, sym, ap, ◌∙◌, subst, true, false, ◌||◌, ◌&&◌, some, List, [], ◌∷◌,
  string_eq, if◌then◌else◌, contains, arith, inl, inr, Bool-cases, All, All-map,
}
use visus.Result.{ok}
use visus.Dict.{Dict, lookup}
use visus.Store.Types.{Collection, IsSteady}
use visus.Collector.Server.{
  Parts, Server, ScheduledJob, skipped, up_to_date, reschedule, consider, consider_all,
  cleanup_loop, cleanup_jobs, locked_refresh, refresh_names,
}
use visus.Collector.Server.Jobs.{wanted, asked, found-cases}
use visus.Collector.Server.Outcome.{vanished}

module _ (t : Parts) where
  -- For each listed name the store has an answer, and if it is to run, the table has a job for it
  -- that is not older.
  pub record IsSettled (s : Server t) (n : String) : Type 0 where
    pub answered : vanished t s n ≡ false
    pub current :
        (c : Collection)
        → (t.store.get_collection n s.store).0 ≡ ok (some c)
        → wanted t s n ≡ true
        → up_to_date t (lookup n s.jobs) c ≡ true

  abbrev pub AllSettled : Server t → List String → Type 0
  AllSettled s [] = Unit
  AllSettled s (n ∷ ns) = IsSettled s n × AllSettled s ns

  abbrev kept : Server t → List String → List String → List String
  kept s [] keep = keep
  kept s (n ∷ ns) keep = kept s ns (if wanted t s n then n ∷ keep else keep)

  reschedule-current :
      (c : Collection) (s : Server t)
      → up_to_date t (lookup c.name s.jobs) c ≡ true
      → reschedule t c s ≡ (ok tt, s)
  unfolding reschedule
  reschedule-current c s h = rw h

  consider-settled :
      (n : String) (s : Server t)
      → IsSteady t.store s.store
      → IsSettled s n
      → consider t n s ≡ (ok (wanted t s n), s)
  unfolding consider
  consider-settled n s steady h = elim (found-cases (t.store.get_collection n s.store).0) [
    | inl (c, e) ↦ elim (Bool-cases (skipped t s.lease_holder c)) [
      | inl p ↦ ground (arith, steady.reads n)
      | inr p ↦
          let u : up_to_date t (lookup c.name s.jobs) c ≡ true =
            subst (λ k. up_to_date t (lookup k s.jobs) c ≡ true) (sym (steady.named n c e))
              (h.current c e (ground arith)) in
          ground (arith, steady.reads n, reschedule-current c (asked t n s) u)
    ]
    | inr e ↦ ground (arith, steady.reads n, h.answered)
  ]

  consider_all-settled :
      (ns keep : List String) (s : Server t)
      → IsSteady t.store s.store
      → AllSettled s ns
      → consider_all t ns keep s ≡ (ok (kept s ns keep), s)
  unfolding consider_all
  consider_all-settled [] keep s steady h = refl
  consider_all-settled (n ∷ ns) keep s steady h =
      rw (consider-settled n s steady h.0)
        (consider_all-settled ns (if wanted t s n then n ∷ keep else keep) s steady h.1)

  contains-kept :
      (s : Server t) (ns keep : List String) (k : String)
      → contains (kept s ns keep) k ≡ (contains keep k || (contains ns k && wanted t s k))
  contains-kept s [] keep k = ground arith
  contains-kept s (n ∷ ns) keep k = ground (
    arith,
    contains-kept s ns (if wanted t s n then n ∷ keep else keep) k,
    string_eq.same_iff n k,
  )

  cleanup_loop-kept :
      (keep : List String) (rest : Dict String (ScheduledJob t)) (s : Server t)
      → All (λ x. contains keep x.0 ≡ true) rest
      → cleanup_loop t keep rest s ≡ s
  unfolding cleanup_loop
  cleanup_loop-kept keep [] s h = refl
  cleanup_loop-kept keep (x ∷ rest) s h = rw h.0 (cleanup_loop-kept keep rest s h.1)

  refresh_names-settled :
      (s : Server t) (ns : List String)
      → IsSteady t.store s.store
      → AllSettled s ns
      → All (λ x. (contains ns x.0 && wanted t s x.0) ≡ true) s.jobs
      → refresh_names t ns s ≡ (ok tt, record s { refresh_counts = suc s.refresh_counts })
  unfolding refresh_names cleanup_jobs
  refresh_names-settled s ns steady h a =
      let l : All (λ x. contains (kept s ns []) x.0 ≡ true) s.jobs =
        All-map _ _ s.jobs (λ x z. contains-kept s ns [] x.0 ∙ z) a in
      rw (consider_all-settled ns [] s steady h) (
        ap (λ x. (ok tt, record x { refresh_counts = suc x.refresh_counts }))
          (cleanup_loop-kept (kept s ns []) s.jobs s l))

  -- Where a steady store lists `ns`, every listed name is settled and every job in the
  -- table is for a listed and wanted name, a refresh succeeds and changes nothing but the count of
  -- refreshes: no job is stopped, started or registered again.
  pub refresh_stable :
      (s : Server t) (ns : List String)
      → IsSteady t.store s.store
      → (t.store.get_collection_names s.store).0 ≡ ok ns
      → AllSettled s ns
      → All (λ x. (contains ns x.0 && wanted t s x.0) ≡ true) s.jobs
      → locked_refresh t s ≡ (ok tt, record s { refresh_counts = suc s.refresh_counts })
  unfolding locked_refresh
  refresh_stable s ns steady q h a = rw q (
      ap (λ st. refresh_names t ns (record s { store = st })) steady.lists
      ∙ refresh_names-settled s ns steady h a)
