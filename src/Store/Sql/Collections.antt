-- ===== src/Store/Sql/Collections.antt =====
-- The writes of collection.go: a collection is put or deleted as a whole.
use visus.Prelude.{
  ◌≡◌, refl, ◌∙◌, ap, sym, subst, String, Bool, ◌||◌, true, false, List, [], ◌∷◌, map, string_eq,
  nat_eq, ◌==◌, Distinct, Bool-cases, inl, inr,
}
use visus.Result.{Result, ok, err, panic}
use visus.Dict.{Dict, lookup, insert, remove, lookup-insert, lookup-remove}
use visus.External.Sql.{Moment, Connection, IsTransactional}
use visus.Store.Types.{Collection, Metric, node, cluster, gauge, counter}
use visus.Store.Sql.Statements.{
  Tables, owned_by, insert_row, collection_row, delete_metrics, delete_collection_row,
  upsert_collection, enum, with_metrics, insert_metric,
}
use visus.Store.Sql
use visus.Store.Sql.{insert_metrics, insert_patterns, read_histogram}
use visus.Store.Sql.Rows.{Added, Added-nil, Added-cons, owned_by-remove, Added-remove}
use visus.Store.Sql.Transactions.{
  weaken, Follows, exec_in-Follows, pure-Follows, then-Follows, IsAtomic, in_transaction-IsAtomic,
}
use visus.Store.Sql.View.{Write, join_scan, read_node}
use visus.Store.Sql.Effects.{SameView-eq, Does}

-- Only rows of `xs` were added to the table of metrics.
abbrev AddedMetrics : String → List Metric → Tables → Tables → Type 0
AddedMetrics name xs t u =
    (u ≡ record t { metrics = u.metrics }) × Added (λ a. a.name) name xs t.metrics u.metrics

with_metrics-eq-ok :
    (t u : Tables) (r : Result (Dict String Metric))
    → with_metrics t r ≡ ok u
    → (d : Dict String Metric) × (r ≡ ok d) × (record t { metrics = d } ≡ u)
with_metrics-eq-ok t u (ok d) h = (d, refl, let z : record t { metrics = d } ≡ u = cc in z)
with_metrics-eq-ok t u (err e) h = cc
with_metrics-eq-ok t u panic h = cc

enum-eq-ok {ℓ} : {A : Type ℓ} (b : Bool) (r : Result A) {a : A} → enum b r ≡ ok a → r ≡ ok a
enum-eq-ok true r h = h
enum-eq-ok false r h = cc

AddedMetrics-cons :
    (name : String) (a : Metric) (xs : List Metric) (m : Moment) (t u v : Tables)
    → insert_metric name a m t ≡ ok u
    → AddedMetrics name xs u v
    → AddedMetrics name (a ∷ xs) t v
AddedMetrics-cons name a xs m t u v h k =
    let (d, p, q) =
      with_metrics-eq-ok t u (insert_row (λ x. x.name) name a t.metrics)
        (enum-eq-ok (a.kind == gauge || a.kind == counter) _ h) in
    let k' = subst (λ w. AddedMetrics name xs w v) (sym q) k in
    (k'.0, Added-cons (λ x. x.name) name a xs t.metrics d v.metrics p k'.1)

delete_collection-Does :
    (name : String) (m : Moment) (t : Tables)
    → Does
        (Write.delete_collection name)
        t
        (record t { metrics = remove name t.metrics; collections = remove name t.collections })
delete_collection-Does name m t = (
  m,
  SameView-eq _ _ (record {
    collections = λ k. elim (Bool-cases (name == k)) [
      | inl p ↦ rw (lookup-remove name k t.collections, p) refl
      | inr p ↦ rw (lookup-remove name k t.collections, owned_by-remove name k t.metrics, p) refl
    ];
    histograms = λ k. refl;
    scans = λ k. refl;
    nodes = λ k. refl;
  }),
)

put_collection-Does :
    (c : Collection) (m : Moment) (t u v : Tables)
    → record t {
      metrics = remove c.name t.metrics;
      collections = insert c.name (collection_row c m) t.collections;
    }
      ≡ u
    → AddedMetrics c.name c.metrics u v
    → Does (Write.put_collection c) t v
put_collection-Does c m t u v e (only, added) =
    let same : v ≡ record t {
      metrics = v.metrics;
      collections = insert c.name (collection_row c m) t.collections;
    } =
      only ∙ ap {A = Tables} {B = Tables} (λ w. record w { metrics = v.metrics }) (sym e) in
    let from =
      subst (λ d. Added (λ a. a.name) c.name c.metrics d v.metrics) (ap (λ w. w.metrics) (sym e))
        added in
    let rows = Added-remove (λ a. a.name) c.name c.metrics t.metrics v.metrics from in
    (
      m,
      SameView-eq _ _ (record {
        collections = λ k. elim (Bool-cases (c.name == k)) [
          | inl p ↦
              let q : k ≡ c.name = sym ((string_eq.same_iff c.name k).0 p) in
              rw
                (
                  ap (λ w. w.collections) same,
                  lookup-insert c.name k (collection_row c m) t.collections,
                  rows k,
                  p,
                  q,
                )
                refl
          | inr p ↦
              rw
                (
                  ap (λ w. w.collections) same,
                  lookup-insert c.name k (collection_row c m) t.collections,
                  rows k,
                  p,
                )
                refl
        ];
        histograms = λ k. ap (λ w. read_histogram k (lookup k w.histograms)) same;
        scans = λ k. ap (λ w. join_scan k (lookup k w.scans) (owned_by k w.patterns)) same;
        nodes = λ k. ap (λ w. read_node k (lookup k w.nodes)) same;
      }),
    )

module _ (d : Connection Tables) (laws : IsTransactional d) where
  insert_metrics-Follows :
      (name : String) (xs : List Metric)
      → Follows d laws (insert_metrics d name xs) (AddedMetrics name xs)
  unfolding insert_metrics
  insert_metrics-Follows name [] =
      weaken d laws _
        (λ t u e. subst (AddedMetrics name [] t) e (refl, Added-nil (λ a. a.name) name t.metrics))
        (pure-Follows d laws)
  insert_metrics-Follows name (a ∷ xs) =
      weaken d laws _ (λ t v (u, (m, p), q). AddedMetrics-cons name a xs m t u v p q)
        (then-Follows d laws _ _ _ _ (exec_in-Follows d laws (insert_metric name a))
          (insert_metrics-Follows name xs))

  -- A collection that is put has no two metrics of one name.
  pub put_collection-IsAtomic :
      (c : Collection)
      → IsAtomic d laws
          (Sql.put_collection d c)
          (λ t u. Does (Write.put_collection c) t u × Distinct (map (λ a. a.name) c.metrics))
  unfolding Sql.put_collection
  put_collection-IsAtomic c = in_transaction-IsAtomic d laws _ _ (
      weaken d laws _
        (λ t v (u1, (m1, p1), (u2, (m2, p2), q)).
          let z1 : record t { metrics = remove c.name t.metrics } ≡ u1 = cc in
          let p2' = enum-eq-ok (c.scope == node || c.scope == cluster) _ p2 in
          let z2 : record u1 { collections = insert c.name (collection_row c m2) u1.collections }
              ≡ u2 =
            cc in
          let e =
            ap {A = Tables} {B = Tables}
              (λ w. record w { collections = insert c.name (collection_row c m2) w.collections })
              z1 in
          (put_collection-Does c m2 t u2 v (e ∙ z2) q, q.1.distinct))
        (then-Follows d laws _ _ _ _ (exec_in-Follows d laws (delete_metrics c.name)) (
          then-Follows d laws _ _ _ _ (exec_in-Follows d laws (upsert_collection c))
            (insert_metrics-Follows c.name c.metrics))))

  pub delete_collection-IsAtomic :
      (name : String)
      → IsAtomic d laws (Sql.delete_collection d name) (Does (Write.delete_collection name))
  unfolding Sql.delete_collection
  delete_collection-IsAtomic name = in_transaction-IsAtomic d laws _ _ (
      weaken d laws _
        (λ t v (u, (m1, p1), (m2, p2)).
          let z1 : record t { metrics = remove name t.metrics } ≡ u = cc in
          let z2 : record u { collections = remove name u.collections } ≡ v = cc in
          let e =
            ap {A = Tables} {B = Tables} (λ w. record w { collections = remove name w.collections })
              z1 in
          subst (λ w. Does (Write.delete_collection name) t w) (e ∙ z2)
            (delete_collection-Does name m2 t))
        (then-Follows d laws _ _ _ _ (exec_in-Follows d laws (delete_metrics name))
          (exec_in-Follows d laws (delete_collection_row name))))
