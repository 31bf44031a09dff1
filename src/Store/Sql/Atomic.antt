-- ===== src/Store/Sql/Atomic.antt =====
-- Each writing method of the store against its effect on the abstract view of the tables.
use visus.Prelude.{
  ℕ, ◌≡◌, ◌≢◌, refl, ap, sym, subst, String, ℤ, [], ◌∷◌, Option, none, some, arith, if◌then◌else◌,
  string_eq, nat_eq, ◌==◌, Bool-cases, inl, inr, ◌⊎◌, nat_beq_iff,
}
use visus.Result.{Result, ok, err, panic, pure, >>=-eq-ok, continue}
use visus.Dict.{Dict, lookup, insert, remove, lookup-insert, lookup-remove}
use visus.External.Sql.{Moment, Connection, IsTransactional}
use visus.Store.Types.{Histogram}
use visus.Store.Sql.Statements.{
  Tables, NodeRow, HistogramRow, histogram_row, insert_node, added_node, beat,
}
use visus.Store.Sql
use visus.Store.Sql.{read_histogram, histogram_of}
use visus.Store.Sql.Transactions.{IsAtomic, IsAtomic-weaken}
use visus.Store.Sql.View.{Write, exec, read_node, beaten, replaced}
use visus.Store.Sql.Effects.{SameView-eq, Does}
use visus.Store.Sql.Collections.{put_collection-IsAtomic, delete_collection-IsAtomic}
use visus.Store.Sql.Scans.{put_scan-IsAtomic, delete_scan-IsAtomic}

delete_histogram-Does :
    (name : String) (m : Moment) (t : Tables)
    → Does (Write.delete_histogram name) t (record t { histograms = remove name t.histograms })
delete_histogram-Does name m t = (
  m,
  SameView-eq _ _ (record {
    collections = λ k. refl;
    histograms = λ k. grind (arith, lookup-remove name k t.histograms);
    scans = λ k. refl;
    nodes = λ k. refl;
  }),
)

read_replaced :
    (h : Histogram) (m : Moment) (k : String) (o : Option HistogramRow)
    → k ≡ h.name
    → histogram_of k (histogram_row h m o) ≡ replaced h m (read_histogram h.name o)
read_replaced h m k none q = rw q refl
read_replaced h m k (some r) q = rw q refl

put_histogram-Does :
    (h : Histogram) (m : Moment) (t : Tables)
    → Does (Write.put_histogram h) t (record t {
      histograms = insert h.name (histogram_row h m (lookup h.name t.histograms)) t.histograms;
    })
put_histogram-Does h m t =
    let row = histogram_row h m (lookup h.name t.histograms) in
    (
      m,
      SameView-eq _ _ (record {
        collections = λ k. refl;
        histograms = λ k. elim (Bool-cases (h.name == k)) [
          | inl p ↦
              let q : k ≡ h.name = sym ((string_eq.same_iff h.name k).0 p) in
              rw (lookup-insert h.name k row t.histograms, p)
                (ap some (read_replaced h m k (lookup h.name t.histograms) q))
          | inr p ↦ rw (lookup-insert h.name k row t.histograms, p) refl
        ];
        scans = λ k. refl;
        nodes = λ k. refl;
      }),
    )

beat-lookup :
    (id now j : ℕ) (d : Dict ℕ NodeRow)
    → read_node j (lookup j (beat id now d))
      ≡ (if id == j then beaten now (read_node id (lookup id d)) else read_node j (lookup j d))
unfolding beat lookup
beat-lookup id now j [] = grind arith
beat-lookup id now j ((i, r) ∷ d) = grind (arith, beat-lookup id now j d, nat_beq_iff)

heartbeat-Does :
    (id : ℕ) (m : Moment) (t : Tables)
    → Does (Write.heartbeat id) t (record t { nodes = beat id m.now t.nodes })
heartbeat-Does id m t = (
  m,
  SameView-eq _ _ (record {
    collections = λ k. refl;
    histograms = λ k. refl;
    scans = λ k. refl;
    nodes = λ k. beat-lookup id m.now k t.nodes;
  }),
)

delete_node-Does :
    (id : ℕ) (m : Moment) (t : Tables)
    → Does (Write.delete_node id) t (record t { nodes = remove id t.nodes })
delete_node-Does id m t = (
  m,
  SameView-eq _ _ (record {
    collections = λ k. refl;
    histograms = λ k. refl;
    scans = λ k. refl;
    nodes = λ k. grind (arith, lookup-remove id k t.nodes);
  }),
)

register_node-Does :
    (hostname : String) (pid : ℤ) (version : String) (m : Moment) (t u : Tables) (id : ℕ)
    → insert_node hostname pid version m t ≡ ok (u, id)
    → Does (Write.register_node hostname pid version) t u
register_node-Does hostname pid version m t u id e = go (lookup m.row_id t.nodes) e
  where
    row : NodeRow
    row = record { hostname = hostname; pid = pid; version = version; updated = m.now }

    go :
        (o : Option NodeRow)
        → added_node t row m.row_id o ≡ ok (u, id)
        → Does (Write.register_node hostname pid version) t u
    go none e =
        let z : ◌≡◌ {A = Tables × ℕ} (record t { nodes = insert m.row_id row t.nodes }, m.row_id)
            (u, id) =
          cc in
        subst (Does (Write.register_node hostname pid version) t) (ap (λ w. w.0) z) (
          m,
          SameView-eq _ _ (record {
            collections = λ k. refl;
            histograms = λ k. refl;
            scans = λ k. refl;
            nodes = λ k. grind (arith, lookup-insert m.row_id k row t.nodes, nat_beq_iff);
          }),
        )
    go (some r) e = cc

module _ (d : Connection Tables) (laws : IsTransactional d) where
  exec-statement :
      (f : Moment → Tables → Tables) (w : Write)
      → ((m : Moment) (t : Tables) → Does w t (f m t))
      → IsAtomic d laws (d.exec (λ m t. ok (f m t))) (Does w)
  exec-statement f w h = record {
    either = λ c. kept c (laws.exec_either (λ m t. ok (f m t)) c);
    done = λ c e. let (m, p) = laws.exec_done (λ m t. ok (f m t)) c e in reached m _ _ p;
  }
    where
      reached :
          (m : Moment) (t u : Tables) → ◌≡◌ {A = Result Tables} (ok (f m t)) (ok u) → Does w t u
      reached m t u p = let q : f m t ≡ u = cc in subst (Does w t) q (h m t)

      kept :
          (c : d.Conn)
          → (d.tables (d.exec (λ m t. ok (f m t)) c).1 ≡ d.tables c)
            ⊎ ((m : Moment) × (◌≡◌ {A = Result Tables}
                  (ok (f m (d.tables c)))
                  (ok (d.tables (d.exec (λ m t. ok (f m t)) c).1))))
          → (d.tables (d.exec (λ m t. ok (f m t)) c).1 ≡ d.tables c)
            ⊎ Does w (d.tables c) (d.tables (d.exec (λ m t. ok (f m t)) c).1)
      kept c (inl p) = inl p
      kept c (inr (m, p)) = inr (reached m _ _ p)

  register_node-IsAtomic :
      (hostname : String) (pid : ℤ) (version : String)
      → IsAtomic d laws
          (exec d (Write.register_node hostname pid version))
          (Does (Write.register_node hostname pid version))
  unfolding exec Sql.register_node
  register_node-IsAtomic hostname pid version = record {
    either = λ c.
        rw (ap d.tables (without_id-state (d.exec_row insertion c).0 (d.exec_row insertion c).1))
          (kept c (laws.exec_row_either insertion c));
    done = λ c e.
        let (id, p, q) = >>=-eq-ok (d.exec_row insertion) (λ id. pure tt) c e in
        let (m, r) = laws.exec_row_done insertion c id p in
        rw (ap d.tables (without_id-state (d.exec_row insertion c).0 (d.exec_row insertion c).1))
          (register_node-Does hostname pid version m _ _ id r);
  }
    where
      insertion : Moment → Tables → Result (Tables × ℕ)
      insertion = insert_node hostname pid version

      without_id-state :
          {S : Type 0} (r : Result ℕ) (s : S) → (continue r (λ id. pure {A = Unit {0}} tt) s).1 ≡ s
      without_id-state (ok id) s = refl
      without_id-state (err e) s = refl
      without_id-state panic s = refl

      kept :
          (c : d.Conn)
          → (d.tables (d.exec_row insertion c).1 ≡ d.tables c)
            ⊎ ((m : Moment) × (id : ℕ) × (insertion m (d.tables c)
                  ≡ ok (d.tables (d.exec_row insertion c).1, id)))
          → (d.tables (d.exec_row insertion c).1 ≡ d.tables c)
            ⊎ Does
                (Write.register_node hostname pid version)
                (d.tables c)
                (d.tables (d.exec_row insertion c).1)
      kept c (inl p) = inl p
      kept c (inr (m, id, p)) = inr (register_node-Does hostname pid version m _ _ id p)

  exec-IsAtomic : (w : Write) → IsAtomic d laws (exec d w) (Does w)
  unfolding exec Sql.delete_histogram Sql.put_histogram Sql.heartbeat Sql.delete_node
  exec-IsAtomic (Write.delete_collection name) = delete_collection-IsAtomic d laws name
  exec-IsAtomic (Write.delete_histogram name) =
      exec-statement _ (Write.delete_histogram name) (delete_histogram-Does name)
  exec-IsAtomic (Write.delete_scan name) = delete_scan-IsAtomic d laws name
  exec-IsAtomic (Write.put_collection c) =
      IsAtomic-weaken d laws _ (λ t u p. p.0) (put_collection-IsAtomic d laws c)
  exec-IsAtomic (Write.put_histogram x) =
      exec-statement _ (Write.put_histogram x) (put_histogram-Does x)
  exec-IsAtomic (Write.put_scan s) =
      IsAtomic-weaken d laws _ (λ t u p. p.0) (put_scan-IsAtomic d laws s)
  exec-IsAtomic (Write.register_node hostname pid version) =
      register_node-IsAtomic hostname pid version
  exec-IsAtomic (Write.heartbeat id) = exec-statement _ (Write.heartbeat id) (heartbeat-Does id)
  exec-IsAtomic (Write.delete_node id) =
      exec-statement _ (Write.delete_node id) (delete_node-Does id)

  pub exec-done :
      (w : Write) (c : d.Conn)
      → (exec d w c).0 ≡ ok tt
      → Does w (d.tables c) (d.tables (exec d w c).1)
  exec-done w c e = (exec-IsAtomic w).done c e

  is_done : (r : Result (Unit {0})) → (r ≡ ok tt) ⊎ (r ≢ ok tt)
  is_done (ok u) = inl refl
  is_done (err e) = inr (λ q. cc)
  is_done panic = inr (λ q. cc)

  -- A method of the SQL store that writes, on a connection that keeps the documented laws of
  -- transactions, either reports an error and leaves the tables as they are, or has had its whole effect
  -- on the collections, histograms, scans and nodes that they show, at some moment. It may report an
  -- error all the same then, if its answer was lost.
  pub exec-atomic :
      (w : Write) (c : d.Conn)
      → (((exec d w c).0 ≢ ok tt) × (d.tables (exec d w c).1 ≡ d.tables c))
        ⊎ Does w (d.tables c) (d.tables (exec d w c).1)
  exec-atomic w c = elim (is_done (exec d w c).0) [
    | inl e ↦ inr (exec-done w c e)
    | inr n ↦ elim ((exec-IsAtomic w).either c) [ inl p ↦ inl (n, p) | inr p ↦ inr p ]
  ]
