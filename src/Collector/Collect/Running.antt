-- ===== src/Collector/Collect/Running.antt =====
-- collector.go: calls that do not panic, and leave the collector as it was but for its two caches.
use visus.Prelude.{◌≡◌, ap, ◌∙◌, true, string_eq, nat_eq, arith, is_some}
use visus.Result.{Result, ok, err, panic, continue}
use visus.External.Prometheus.{Prometheus}
use visus.External.Lru.{Lru}
use visus.External.Database.{Database}
use visus.Collector.Types.{Collector, CacheKey, CacheValue}
use visus.Collector.Values.{Value, Session, Run}
use visus.Collector.Collect.Vectors.{VectorLaws}

module _ (p : Prometheus) (l : Lru CacheKey (CacheValue p)) (d : Database (Value p))
    (laws : VectorLaws p) (c : Collector p l) where
  -- The collector is `c`, but for the two caches, and has a cache of counters.
  pub record IsRunning (s : Session p l d) : Type 0 where
    pub cached : is_some s.collector.counters_cache ≡ true
    pub label_map : s.collector.label_map ≡ c.label_map
    pub metrics : s.collector.metrics ≡ c.metrics
    pub labels : s.collector.labels ≡ c.labels
    pub databases : s.collector.databases ≡ c.databases

  -- A call that does not panic, with what holds of its result.
  abbrev pub Safe : {A : Type 0} → (A → Type 0) → Result A × Session p l d → Type 0
  Safe Q (ok a, s) = Q a × IsRunning s
  Safe Q (err e, s) = IsRunning s
  Safe Q (panic, s) = ⊥

  pub continue-Safe :
      {A B : Type 0} (Q : A → Type 0) (P : B → Type 0) (r : Result A) (f : A → Run p l d B)
      (s : Session p l d)
      → Safe Q (r, s)
      → ((a : A) → Q a → IsRunning s → Safe P (f a s))
      → Safe P (continue r f s)
  continue-Safe Q P (ok a) f s h k = k a h.0 h.1
  continue-Safe Q P (err e) f s h k = h
  continue-Safe Q P panic f s h k = absurd h

  -- The world, the connection and the two caches are no part of it.
  pub moved :
      (s s' : Session p l d)
      → s'.collector.counters_cache ≡ s.collector.counters_cache
      → s'.collector ≡ record s.collector {
        counters_cache = s'.collector.counters_cache;
        gauge_labels = s'.collector.gauge_labels;
      }
      → IsRunning s
      → IsRunning s'
  moved s s' e q r = record {
    cached = ground (arith, r.cached);
    label_map = ap (λ x. x.label_map) q ∙ r.label_map;
    metrics = ap (λ x. x.metrics) q ∙ r.metrics;
    labels = ap (λ x. x.labels) q ∙ r.labels;
    databases = ap (λ x. x.databases) q ∙ r.databases;
  }
