-- ===== src/Collector/Collect.antt =====
-- internal/collector/collector.go: `Collect`, which queries the database and sets the metrics.
pub mod Gauges
pub mod Vectors
pub mod Running
pub mod Cells
pub mod Columns
pub mod Widths
pub mod Labels
pub mod Sound
pub mod EachRow
pub mod Safety
mod Examples
use visus.Prelude.{
  ℕ, zero, suc, String, Bool, true, false, not, Option, none, some, List, [], ◌∷◌, ◌+◌, ℤ, pos,
  ◌*ℤ◌, length, ◌==◌, nat_eq, string_eq, if◌then◌else◌, is_some,
}
use visus.Result.{Result, Op, ok, err, panic, deref, pure, lift, gets, modify, ◌>>=◌, ◌>>◌}
use visus.Dict.{Dict, lookup, insert}
use visus.External.Prometheus.{Prometheus}
use visus.External.Lru.{Lru}
use visus.External.Database.{Database, Rows}
use visus.Collector.Types.{
  Collector, Metric, Vec, counter_vec, gauge_vec, CacheKey, CacheValue, get_all_labels,
}
use visus.Collector.Values.{
  Value, float, int, numeric, text, null, other, Session, Series, join, set_at, start_labels, Run,
  on_conn, number, maybe_init_cache, counter_add, gauge_set, note_series,
}

module _ (p : Prometheus) (l : Lru CacheKey (CacheValue p)) (d : Database (Value p)) where
  -- A counter is added to, and a gauge set, where the value is a number.
  unfoldable pub count :
      p.CounterVec → String → List String → List String → Option p.Float → Run p l d (Unit {0})
  count vec name final labels none = pure tt
  count vec name final labels (some x) = counter_add p l d vec name final labels x

  unfoldable pub set : p.GaugeVec → List String → Option p.Float → Run p l d (Unit {0})
  unfolding gauge_set
  set vec labels none = pure tt
  set vec labels (some x) = gauge_set p l d vec labels x

  -- The value of a column that belongs to a metric.
  unfoldable pub measure :
      String → Metric p → Value p → List String → List String → Series → Run p l d Series
  unfolding count set note_series
  measure name m v final labels curr = elim m.vec [
    | counter_vec vec ↦ do count vec m.name final labels (number p l d v); pure curr
    | gauge_vec vec ↦ do
      set vec labels (number p l d v)
      pure (note_series p l d name (join "|" labels) final curr)
  ]

  -- The value of a column that belongs to a label.
  unfoldable pub fill : ℕ → Value p → List String → Result (List String)
  unfolding set_at
  fill i (text s) labels = set_at i s labels
  fill i _ labels = ok labels

  -- A column is a label, or else a metric, or is passed over.
  unfoldable pub place :
      String
      → Value p
      → List String
      → List String × Series
      → Option ℕ
      → Option (Metric p)
      → Run p l d (List String × Series)
  unfolding fill measure
  place name v final (labels, curr) (some i) m = do
    labels' ← lift (fill i v labels)
    pure (labels', curr)
  place name v final (labels, curr) none (some m) = do
    curr' ← measure name m v final labels curr
    pure (labels, curr')
  place name v final (labels, curr) none none = pure (labels, curr)

  -- The body of the loop over the values of a row.
  unfoldable pub column :
      String → Value p → List String → List String × Series → Run p l d (List String × Series)
  unfolding place
  column name v final r = do
    c ← gets (λ s. s.collector)
    place name v final r (lookup name c.label_map) (lookup name c.metrics)

  -- `desc[i]` is out of range where there are more values than columns.
  unfoldable pub columns :
      List String → List (Value p) → List String → List String × Series → Run p l d Series
  columns fields [] final (labels, curr) = pure curr
  columns [] (v ∷ vs) final (labels, curr) = lift panic
  columns (f ∷ fs) (v ∷ vs) final (labels, curr) = do
    r ← column f v final (labels, curr)
    columns fs vs final r

  -- The labels of a row at its end.
  unfoldable pub final_labels :
      Dict String ℕ → List String → List (Value p) → List String → List String
  unfolding fill
  final_labels positions [] vs labels = labels
  final_labels positions (f ∷ fs) [] labels = labels
  final_labels positions (f ∷ fs) (v ∷ vs) labels =
      final_labels positions fs vs (elim (lookup f positions) [
        | none ↦ labels
        | some i ↦ elim (fill i v labels) [ ok labels' ↦ labels' | err e ↦ labels | panic ↦ labels ]
      ])

  unfoldable pub row : String → List String → List (Value p) → Series → Run p l d Series
  unfolding columns final_labels start_labels get_all_labels
  row db fields values curr = do
    c ← gets (λ s. s.collector)
    labels ← lift (start_labels db (get_all_labels c))
    columns fields values (final_labels c.label_map fields values labels) (labels, curr)

  -- The loop over the rows; one that cannot be decoded is passed over.
  unfoldable pub each_row :
      String → List String → List (Result (List (Value p))) → Series → Run p l d Series
  unfolding row
  each_row db fields [] curr = pure curr
  each_row db fields (ok values ∷ rows) curr = do
    curr' ← row db fields values curr
    each_row db fields rows curr'
  each_row db fields (err e ∷ rows) curr = each_row db fields rows curr
  each_row db fields (panic ∷ rows) curr = lift panic

  -- `_, ok := currGauges[gaugeName][id]`.
  abbrev pub has_series : String → String → Series → Bool
  has_series name id curr = elim (lookup name curr) [
    | none ↦ false
    | some ids ↦ is_some (lookup id ids)
  ]

  unfoldable pub clear_series :
      Dict String (Metric p) → Series → String → Dict String (List String) → p.World → p.World
  clear_series metrics curr name [] w = w
  clear_series metrics curr name ((id, labels) ∷ ids) w = clear_series metrics curr name ids (
      if has_series name id curr then w else elim (lookup name metrics) [
        | none ↦ w
        | some m ↦ elim m.vec [
          | counter_vec _ ↦ w
          | gauge_vec vec ↦ p.delete_gauge_labels vec labels w
        ]
      ])

  unfoldable pub clear_gauges : Dict String (Metric p) → Series → Series → p.World → p.World
  unfolding clear_series
  clear_gauges metrics curr [] w = w
  clear_gauges metrics curr ((name, ids) ∷ old) w =
      clear_gauges metrics curr old (clear_series metrics curr name ids w)

  unfoldable pub clear_obsolete_gauges : Series → Session p l d → Session p l d
  unfolding clear_gauges
  clear_obsolete_gauges curr s = record s {
    collector = record s.collector { gauge_labels = curr };
    world = clear_gauges s.collector.metrics curr s.collector.gauge_labels s.world;
  }

  -- What is done in the transaction once the query has answered.
  unfoldable pub update : String → Rows (Value p) → Run p l d (Unit {0})
  unfolding each_row clear_obsolete_gauges
  update db rows = do
    c ← gets (λ s. s.collector)
    if not (length rows.fields == length c.labels + length c.metrics)
        then lift (err "columns returned in the query must be match labels+metrics")
        else do
          curr ← each_row db rows.fields rows.rows []
          modify (clear_obsolete_gauges curr)
          on_conn p l d d.commit

  -- `defer tx.Rollback(ctx)`, which does nothing after a commit.
  unfoldable pub roll_back : Result (Unit {0}) × Session p l d → Result (Unit {0}) × Session p l d
  roll_back (r, s) = (r, record s { conn = d.rollback s.conn })

  unfoldable pub in_transaction : String → Run p l d (Unit {0})
  unfolding update
  in_transaction db = do
    c ← gets (λ s. s.collector)
    if not (db == "") then on_conn p l d (d.exec "USE $1" db) else pure tt
    rows ← on_conn p l d (d.query_with c.query c.max_results)
    update db rows

  unfoldable pub collect_locked : String → Run p l d (Unit {0})
  unfolding in_transaction roll_back
  collect_locked db = do on_conn p l d d.begin; λ s. roll_back (in_transaction db s)

  -- The names in the first column of the rows.
  unfoldable pub database_names : List (Result (List (Value p))) → Result (List String)
  database_names [] = ok []
  database_names (ok (text name ∷ vs) ∷ rows) = elim (database_names rows) [
    | ok names ↦ ok (name ∷ names)
    | err e ↦ err e
    | panic ↦ panic
  ]
  database_names (ok [] ∷ rows) = panic
  database_names (ok (v ∷ vs) ∷ rows) = err "expected string for database name"
  database_names (err e ∷ rows) = err e
  database_names (panic ∷ rows) = panic

  unfoldable pub list_databases : Run p l d (List String)
  unfolding database_names
  list_databases = do
    c ← gets (λ s. s.collector)
    if c.databases == "" then pure ("" ∷ []) else do
      rows ← on_conn p l d (d.query c.databases)
      names ← lift (database_names rows.rows)
      elim rows.failure [ none ↦ pure names | some e ↦ lift (err e) ]

  unfoldable pub each_database : List String → Run p l d (Unit {0})
  unfolding collect_locked
  each_database [] = pure tt
  each_database (db ∷ dbs) = do collect_locked db; each_database dbs

  -- `try_lock` is what `c.mu.TryLock()` returns: whether no collection is in progress.
  unfoldable pub collect : Bool → Run p l d (Unit {0})
  unfolding list_databases each_database maybe_init_cache
  collect try_lock = do
    c ← gets (λ s. s.collector)
    if not try_lock then pure tt else if not c.enabled then pure tt else do
      modify (λ s. record s { collector = maybe_init_cache p l d s.collector })
      dbs ← list_databases
      each_database dbs
