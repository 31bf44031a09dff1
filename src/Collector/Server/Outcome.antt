-- ===== src/Collector/Server/Outcome.antt =====
-- server.go: what a refresh returns.
use visus.Prelude.{
  String, ◌≡◌, ◌≢◌, refl, sym, subst, Bool, true, false, ◌||◌, ◌⊎◌, Option, none, List, [], ◌∷◌,
  string_eq, if◌then◌else◌, arith, inl, inr, Bool-cases,
}
use visus.Result.{Result, ok, err, panic}
use visus.Dict.{lookup}
use visus.Store.Types
use visus.Store.Types.{Store, Collection, IsSteady}
use visus.Collector.Types.{Collector}
use visus.Collector.Build.{from_collection, add_metrics, add_metric}
use visus.Collector.Server.{
  Parts, Server, up_to_date, reschedule, consider, consider_all, locked_refresh, unschedule,
  with_names,
}
use visus.Collector.Server.Jobs.{wanted, asked, Spares-consider, found-cases}

module _ (t : Parts) where
  -- The store has no collection for the name: `GetCollection` returns nil.
  abbrev pub is_nil : Result (Option Collection) → Bool
  is_nil (ok none) = true
  is_nil panic = true
  is_nil _ = false

  abbrev pub vanished : Server t → String → Bool
  vanished s n = is_nil (t.store.get_collection n s.store).0

  abbrev pub any_vanished : Server t → List String → Bool
  any_vanished s [] = false
  any_vanished s (n ∷ ns) = vanished s n || any_vanished s ns

  add_metrics-ne-panic :
      (ms : List Types.Metric) (c : Collector t.prometheus t.lru) (w : t.prometheus.World)
      → (add_metrics t.prometheus t.lru ms c w).0 ≢ panic
  unfolding add_metrics add_metric
  add_metrics-ne-panic [] c w h = cc
  add_metrics-ne-panic (m ∷ ms) c w h =
      let r = add_metric t.prometheus t.lru m c w in ground (arith, add_metrics-ne-panic ms r.1 r.2)

  from_collection-ne-panic :
      (c : Collection) (w : t.prometheus.World) → (from_collection t.prometheus t.lru c w).0 ≢ panic
  unfolding from_collection
  from_collection-ne-panic c w = add_metrics-ne-panic c.metrics _ w

  reschedule-ok : (c : Collection) (s : Server t) → (reschedule t c s).0 ≡ ok tt
  unfolding reschedule
  reschedule-ok c s = elim (Bool-cases (up_to_date t (lookup c.name s.jobs) c)) [
    | inl p ↦ rw p
    | inr p ↦
        ground (arith, from_collection-ne-panic c (unschedule t (lookup c.name s.jobs) s).world)
  ]

  consider-outcome :
      (n : String) (s : Server t)
      → (consider t n s).0 ≡ (if vanished s n then panic else ok (wanted t s n))
  unfolding consider
  consider-outcome n s = elim (found-cases (t.store.get_collection n s.store).0) [
    | inl (c, e) ↦ ground (arith, reschedule-ok c (asked t n s))
    | inr e ↦ ground arith
  ]

  vanished-eq :
      (s s' : Server t) (ns : List String)
      → s'.store ≡ s.store
      → any_vanished s' ns ≡ any_vanished s ns
  vanished-eq s s' [] e = refl
  vanished-eq s s' (n ∷ ns) e = rw (e, vanished-eq s s' ns e)

  consider_all-outcome :
      (ns keep : List String) (s : Server t)
      → IsSteady t.store s.store
      → (any_vanished s ns ≡ true) × ((consider_all t ns keep s).0 ≡ panic)
        ⊎ ((keep' : List String) × (any_vanished s ns ≡ false)
            × ((consider_all t ns keep s).0 ≡ ok keep'))
  unfolding consider_all
  consider_all-outcome [] keep s steady = inr (keep, refl, refl)
  consider_all-outcome (n ∷ ns) keep s steady =
      let w = wanted t s n in
      let s1 = (consider t n s).1 in
      let sp = Spares-consider t n s steady in
      let o = consider-outcome n s in
      let v = vanished-eq s s1 ns sp.store in
      elim (Bool-cases (vanished s n)) [
        | inl p ↦ inl (ground arith, ground arith)
        | inr p ↦
            elim (consider_all-outcome ns (if w then n ∷ keep else keep) s1
              (subst (IsSteady t.store) (sym sp.store) steady)) [
                | inl (a, b) ↦ inl (ground arith, ground arith)
                | inr (keep', a, b) ↦ inr (keep', ground arith, ground arith)
              ]
      ]

  abbrev pub outcome : Server t → Result (List String) → Result (Unit {0})
  outcome s (ok ns) = if any_vanished s ns then panic else ok tt
  outcome s (err e) = err e
  outcome s panic = panic

  -- Over a steady store, a refresh fails or panics as the question for the names does. With the names
  -- it succeeds, unless for one of them the store returns nil without an error or panics: then it
  -- panics.
  pub refresh_outcome :
      (s : Server t)
      → IsSteady t.store s.store
      → (locked_refresh t s).0 ≡ outcome s (t.store.get_collection_names s.store).0
  unfolding locked_refresh
  refresh_outcome s steady = go (t.store.get_collection_names s.store).0
    where
      l : Server t
      l = record s { store = (t.store.get_collection_names s.store).1 }

      go : (r : Result (List String)) → (with_names t r l).0 ≡ outcome s r
      go (ok ns) =
          elim (consider_all-outcome ns [] l (subst (IsSteady t.store) (sym steady.lists) steady)) [
            | inl (a, b) ↦ ground (arith, vanished-eq s l ns steady.lists)
            | inr (keep, a, b) ↦ ground (arith, vanished-eq s l ns steady.lists)
          ]
      go (err e) = refl
      go panic = refl
