-- ===== src/Collector/Collect/Gauges.antt =====
-- collector.go: the gauges that are dropped after a collection.
use visus.Prelude.{
  String, ◌≡◌, ◌≢◌, ◌⊎◌, refl, inl, inr, ◌∙◌, subst, Bool, true, false, Option, none, some, List,
  [], ◌∷◌, string_eq, if◌then◌else◌, Bool-cases, All,
}
use visus.Dict.{Dict, lookup}
use visus.External.Prometheus.{Prometheus}
use visus.External.Lru.{Lru}
use visus.External.Database.{Database}
use visus.Collector.Types.{Metric, Vec, counter_vec, gauge_vec, CacheKey, CacheValue}
use visus.Collector.Values.{Value, Session, Series}
use visus.Collector.Collect.{has_series, clear_series, clear_gauges, clear_obsolete_gauges}

-- What the documentation of Prometheus says of `DeleteLabelValues`: it removes the series with these
-- labels from the vector, and no other. `has` says whether a vector has a series.
pub record GaugeLaws (p : Prometheus) : Type 0 where
  pub has : p.GaugeVec → List String → p.World → Bool
  pub delete_self :
      (v : p.GaugeVec) (ls : List String) (w : p.World)
      → has v ls (p.delete_gauge_labels v ls w) ≡ false
  pub delete_gone :
      (v u : p.GaugeVec) (ls ks : List String) (w : p.World)
      → has v ls w ≡ false
      → has v ls (p.delete_gauge_labels u ks w) ≡ false
  pub delete_other :
      (v u : p.GaugeVec) (ls ks : List String) (w : p.World)
      → (v ≢ u) ⊎ (ls ≢ ks)
      → has v ls (p.delete_gauge_labels u ks w) ≡ has v ls w

module _ (p : Prometheus) (l : Lru CacheKey (CacheValue p)) (d : Database (Value p))
    (laws : GaugeLaws p) (metrics : Dict String (Metric p)) (curr : Series) where
  abbrev clear : Series → p.World → p.World
  clear = clear_gauges p l d metrics curr

  abbrev clear_one : String → Dict String (List String) → p.World → p.World
  clear_one = clear_series p l d metrics curr

  module _ (v : p.GaugeVec) (ls : List String) where
    abbrev Gone : p.World → Type 0
    Gone w = laws.has v ls w ≡ false

    -- What is done with one series of an earlier collection.
    abbrev drop : Bool → Option (Metric p) → List String → p.World → p.World
    drop seen m ks w = if seen then w else elim m [
      | none ↦ w
      | some m ↦ elim m.vec [ counter_vec _ ↦ w | gauge_vec u ↦ p.delete_gauge_labels u ks w ]
    ]

    drop-Gone :
        (seen : Bool) (m : Option (Metric p)) (ks : List String) (w : p.World)
        → Gone w
        → Gone (drop seen m ks w)
    drop-Gone true m ks w h = h
    drop-Gone false none ks w h = h
    drop-Gone false (some m) ks w h = go m.vec
      where
        go :
            (x : Vec p)
            → Gone (elim x [ counter_vec _ ↦ w | gauge_vec u ↦ p.delete_gauge_labels u ks w ])
        go (counter_vec _) = h
        go (gauge_vec u) = laws.delete_gone v u ls ks w h

    clear_series-Gone :
        (name : String) (ids : Dict String (List String)) (w : p.World)
        → Gone w
        → Gone (clear_one name ids w)
    unfolding clear_series
    clear_series-Gone name [] w h = h
    clear_series-Gone name ((id, ks) ∷ ids) w h =
        clear_series-Gone name ids _
          (drop-Gone (has_series p l d name id curr) (lookup name metrics) ks w h)

    clear_gauges-Gone : (old : Series) (w : p.World) → Gone w → Gone (clear old w)
    unfolding clear_gauges
    clear_gauges-Gone [] w h = h
    clear_gauges-Gone ((name, ids) ∷ old) w h =
        clear_gauges-Gone old _ (clear_series-Gone name ids w h)

    module _ (name id : String) (m : Metric p) (unseen : has_series p l d name id curr ≡ false)
        (found : lookup name metrics ≡ some m) (is_gauge : m.vec ≡ gauge_vec v) where
      dropped :
          (j : String) (ks : List String) (w : p.World)
          → j ≡ id
          → ◌≡◌ {A = Option (List String)} (some ks) (some ls)
          → Gone (drop (has_series p l d name j curr) (lookup name metrics) ks w)
      dropped j ks w e q =
          rw (e, unseen, found, is_gauge)
            (subst (λ ls. laws.has v ls (p.delete_gauge_labels v ks w) ≡ false) (cc)
              (laws.delete_self v ks w))

      clear_series-clears :
          (ids : Dict String (List String)) (w : p.World)
          → lookup id ids ≡ some ls
          → Gone (clear_one name ids w)
      unfolding clear_series lookup
      clear_series-clears [] w h = cc
      clear_series-clears ((j, ks) ∷ ids) w h = elim (Bool-cases (string_eq.same j id)) [
        | inl q ↦
            clear_series-Gone name ids _
              (dropped j ks w ((string_eq.same_iff j id).0 q) (rw q at h))
        | inr q ↦ clear_series-clears ids _ (rw q at h)
      ]

      clear_gauges-clears :
          (old : Series) (ids : Dict String (List String)) (w : p.World)
          → lookup name old ≡ some ids
          → lookup id ids ≡ some ls
          → Gone (clear old w)
      unfolding clear_gauges lookup
      clear_gauges-clears [] ids w h k = cc
      clear_gauges-clears ((n, js) ∷ old) ids w h k = elim (Bool-cases (string_eq.same n name)) [
        | inl q ↦ clear_gauges-Gone old _ (first n js ((string_eq.same_iff n name).0 q) (rw q at h))
        | inr q ↦ clear_gauges-clears old ids _ (rw q at h) k
      ]
        where
          first :
              (n : String) (js : Dict String (List String))
              → n ≡ name
              → ◌≡◌ {A = Option (Dict String (List String))} (some js) (some ids)
              → Gone (clear_one n js w)
          first n js e q = rw e (clear_series-clears js w (cc))

    -- A series of an earlier collection that is seen again, or is not this one.
    abbrev pub Spares : String → String × List String → Type 0
    Spares name (id, ks) =
        (has_series p l d name id curr ≡ true)
        ⊎ ((m : Metric p) (u : p.GaugeVec)
            → lookup name metrics ≡ some m
            → m.vec ≡ gauge_vec u
            → (v ≢ u) ⊎ (ls ≢ ks))

    drop-keeps :
        (name id : String) (ks : List String) (w : p.World)
        → Spares name (id, ks)
        → laws.has v ls (drop (has_series p l d name id curr) (lookup name metrics) ks w)
          ≡ laws.has v ls w
    drop-keeps name id ks w (inl seen) = rw seen refl
    drop-keeps name id ks w (inr other) = elim (Bool-cases (has_series p l d name id curr)) [
      | inl q ↦ rw q refl
      | inr q ↦ rw q (go (lookup name metrics) refl)
    ]
      where
        vec :
            (m : Metric p) (x : Vec p)
            → lookup name metrics ≡ some m
            → m.vec ≡ x
            → laws.has v ls
                (elim x [ counter_vec _ ↦ w | gauge_vec u ↦ p.delete_gauge_labels u ks w ])
              ≡ laws.has v ls w
        vec m (counter_vec _) e q = refl
        vec m (gauge_vec u) e q = laws.delete_other v u ls ks w (other m u e q)

        go :
            (o : Option (Metric p))
            → lookup name metrics ≡ o
            → laws.has v ls (drop false o ks w) ≡ laws.has v ls w
        go none e = refl
        go (some m) e = vec m m.vec e refl

    clear_series-keeps :
        (name : String) (ids : Dict String (List String)) (w : p.World)
        → All (Spares name) ids
        → laws.has v ls (clear_one name ids w) ≡ laws.has v ls w
    unfolding clear_series
    clear_series-keeps name [] w h = refl
    clear_series-keeps name ((id, ks) ∷ ids) w h =
        clear_series-keeps name ids _ h.1 ∙ drop-keeps name id ks w h.0

    clear_gauges-keeps :
        (old : Series) (w : p.World)
        → All (λ x. All (Spares x.0) x.1) old
        → laws.has v ls (clear old w) ≡ laws.has v ls w
    unfolding clear_gauges
    clear_gauges-keeps [] w h = refl
    clear_gauges-keeps ((name, ids) ∷ old) w h =
        clear_gauges-keeps old _ h.1 ∙ clear_series-keeps name ids w h.0

-- What becomes of the series of gauges when `curr` are the ones of this collection.
pub record Clears {p : Prometheus} {l : Lru CacheKey (CacheValue p)} (d : Database (Value p))
    (laws : GaugeLaws p) (curr : Series) (s s' : Session p l d) : Type 0 where
  pub cleared :
      (name id : String) (ids : Dict String (List String)) (ls : List String) (m : Metric p)
      (v : p.GaugeVec)
      → lookup name s.collector.gauge_labels ≡ some ids
      → lookup id ids ≡ some ls
      → has_series p l d name id curr ≡ false
      → lookup name s.collector.metrics ≡ some m
      → m.vec ≡ gauge_vec v
      → laws.has v ls s'.world ≡ false
  pub kept :
      (v : p.GaugeVec) (ls : List String)
      → All
          (λ x. All (Spares p l d laws s.collector.metrics curr v ls x.0) x.1)
          s.collector.gauge_labels
      → laws.has v ls s'.world ≡ laws.has v ls s.world
  pub remembered : s'.collector ≡ record s.collector { gauge_labels = curr }
  pub conn : s'.conn ≡ s.conn

-- Over a registry that keeps its documented laws, `clearObsoleteGauges` removes each series of the
-- last collection that this one has not seen, where its metric is still a gauge; it keeps every
-- series that is not one of those, and remembers the series of this collection for the next one.
pub clear_obsolete_gauges-Clears :
    {p : Prometheus} {l : Lru CacheKey (CacheValue p)} (d : Database (Value p)) (laws : GaugeLaws p)
    (curr : Series) (s : Session p l d)
    → Clears d laws curr s (clear_obsolete_gauges p l d curr s)
unfolding clear_obsolete_gauges
clear_obsolete_gauges-Clears {p} {l} d laws curr s = record {
  cleared = λ name id ids ls m v q r unseen found is_gauge.
      clear_gauges-clears p l d laws s.collector.metrics curr v ls name id m unseen found is_gauge
        s.collector.gauge_labels ids s.world q r;
  kept = λ v ls h.
      clear_gauges-keeps p l d laws s.collector.metrics curr v ls s.collector.gauge_labels s.world
        h;
  remembered = refl;
  conn = refl;
}
