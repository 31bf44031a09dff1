-- ===== src/Collector/Collect/Safety.antt =====
-- collector.go: a collection does not panic.
use visus.Prelude.{
  ℕ, String, ◌≡◌, ◌≢◌, refl, ap, sym, ◌∙◌, subst, Bool, true, false, not, Option, none, some, List,
  [], ◌∷◌, ◌<◌, ◌+◌, string_eq, nat_eq, ◌==◌, if◌then◌else◌, arith, Bool-cases, Option-cases, inl,
  inr, All, length,
}
use visus.Result.{Result, Op, ok, err, panic, continue}
use visus.Dict.{lookup, lookup-nil}
use visus.Store.Types.{Collection}
use visus.External.Prometheus.{Prometheus}
use visus.External.Lru.{Lru}
use visus.External.Database.{Database, Rows}
use visus.Collector.Types.{Collector, CacheKey, CacheValue, get_all_labels}
use visus.Collector.Build.{from_collection}
use visus.Collector.Build.Metrics.{from_collection-Builds}
use visus.Collector.Values.{Value, text, Session, Series, maybe_init_cache, on_conn}
use visus.Collector.Collect.{
  each_row, update, clear_obsolete_gauges, in_transaction, collect_locked, roll_back,
  database_names, list_databases, each_database, collect,
}
use visus.Collector.Collect.Widths.{from_collection-Made}
use visus.Collector.Collect.Vectors.{VectorLaws, Wide}
use visus.Collector.Collect.Running.{IsRunning, Safe, moved, continue-Safe}
use visus.Collector.Collect.Cells.{Fits}
use visus.Collector.Collect.Labels.{label_positions_range}
use visus.Collector.Collect.Sound.{IsNamed, IsSound}
use visus.Collector.Collect.EachRow.{each_row-Safe}

if-ne-panic :
    {S A : Type 0} (b : Bool) (m k : Op S A) (s : S)
    → (m s).0 ≢ panic
    → (k s).0 ≢ panic
    → ((if b then m else k) s).0 ≢ panic
if-ne-panic true m k s h i = h
if-ne-panic false m k s h i = i

module _ (p : Prometheus) (l : Lru CacheKey (CacheValue p)) (d : Database (Value p))
    (laws : VectorLaws p) (c : Collector p l)
    (ranged : (f : String) (i : ℕ) → lookup f c.label_map ≡ some i → i < length c.labels)
    (wide : Wide laws (length (get_all_labels c)) c.metrics) where
  abbrev Fine : {A : Type 0} → Result A × Session p l d → Type 0
  Fine = Safe p l d laws c (λ _. Unit {0})

  abbrev Running : Session p l d → Type 0
  Running = IsRunning p l d laws c

  -- A call on the connection leaves the collector alone.
  on_conn-Safe :
      {A : Type 0} (Q : A → Type 0) (call : Op d.Conn A) (s : Session p l d)
      → (call s.conn).0 ≢ panic
      → ((a : A) → (call s.conn).0 ≡ ok a → Q a)
      → Running s
      → Safe p l d laws c Q (on_conn p l d call s)
  on_conn-Safe Q call s h k r = go (call s.conn).0 h k
    where
      s' : Session p l d
      s' = record s { conn = (call s.conn).1 }

      r' : Running s'
      r' = moved p l d laws c s s' refl refl r

      go : (x : Result _) → x ≢ panic → ((a : _) → x ≡ ok a → Q a) → Safe p l d laws c Q (x, s')
      go (ok a) h k = (k a refl, r')
      go (err e) h k = r'
      go panic h k = h refl

  module _ (sound : IsSound p l d laws c) where
    update-Safe :
        (db : String) (rows : Rows (Value p)) (s : Session p l d)
        → ((db == "") ≡ false → (c.databases == "") ≡ false)
        → All (Fits p l d laws c rows.fields) rows.rows
        → Running s
        → Fine (update p l d db rows s)
    unfolding update clear_obsolete_gauges
    update-Safe db rows s h fits r =
        elim (Bool-cases
          (length rows.fields == length s.collector.labels + length s.collector.metrics)) [
            | inl q ↦
                let a = each_row p l d db rows.fields rows.rows [] s in
                rw q (
                  continue-Safe p l d laws c (λ _. Unit {0}) (λ _. Unit {0}) a.0 _ a.1
                    (each_row-Safe p l d laws c ranged wide db rows.fields rows.rows [] s h fits r)
                    (λ curr _ r.
                      on_conn-Safe (λ _. Unit {0}) d.commit (clear_obsolete_gauges p l d curr a.1)
                        (sound.commit a.1.conn) (λ _ _. tt)
                        (moved p l d laws c a.1 (clear_obsolete_gauges p l d curr a.1) refl refl
                          r)))
            | inr q ↦ rw q r
          ]

    in_transaction-Safe :
        (db : String) (s : Session p l d)
        → ((db == "") ≡ false → (c.databases == "") ≡ false)
        → Running s
        → Fine (in_transaction p l d db s)
    unfolding in_transaction
    in_transaction-Safe db s h r = elim (Bool-cases (db == "")) [
      | inl q ↦ rw q (answered s s r)
      | inr q ↦
          let a = on_conn p l d (d.exec "USE $1" db) s in
          rw q (
            continue-Safe p l d laws c (λ _. Unit {0}) (λ _. Unit {0}) a.0 _ a.1
              (on_conn-Safe (λ _. Unit {0}) (d.exec "USE $1" db) s (sound.exec _ db s.conn)
                (λ _ _. tt) r)
              (λ _ _ r. answered s a.1 r))
    ]
      where
        answered :
            (s0 s1 : Session p l d)
            → Running s1
            → Fine (
                let ask =
                  on_conn p l d (d.query_with s0.collector.query s0.collector.max_results) s1 in
                continue ask.0 (update p l d db) ask.1)
        answered s0 s1 r =
            let ask = d.query_with s0.collector.query s0.collector.max_results in
            let a = on_conn p l d ask s1 in
            continue-Safe p l d laws c (λ rows. All (Fits p l d laws c rows.fields) rows.rows)
              (λ _. Unit {0}) a.0 _ a.1
              (on_conn-Safe (λ rows. All (Fits p l d laws c rows.fields) rows.rows) ask s1
                (sound.query_with _ _ s1.conn) (sound.fits _ _ s1.conn) r)
              (λ rows fits r. update-Safe db rows a.1 h fits r)

    roll_back-Safe : (x : Result (Unit {0}) × Session p l d) → Fine x → Fine (roll_back p l d x)
    unfolding roll_back
    roll_back-Safe (ok a, s) (_, r) =
        (tt, moved p l d laws c s (record s { conn = d.rollback s.conn }) refl refl r)
    roll_back-Safe (err e, s) r =
        moved p l d laws c s (record s { conn = d.rollback s.conn }) refl refl r
    roll_back-Safe (panic, s) r = absurd r

    collect_locked-Safe :
        (db : String) (s : Session p l d)
        → ((db == "") ≡ false → (c.databases == "") ≡ false)
        → Running s
        → Fine (collect_locked p l d db s)
    unfolding collect_locked
    collect_locked-Safe db s h r =
        let a = on_conn p l d d.begin s in
        continue-Safe p l d laws c (λ _. Unit {0}) (λ _. Unit {0}) a.0 _ a.1
          (on_conn-Safe (λ _. Unit {0}) d.begin s (sound.begin s.conn) (λ _ _. tt) r)
          (λ _ _ r. roll_back-Safe (in_transaction p l d db a.1) (in_transaction-Safe db a.1 h r))

    -- A database is named only if the collector asks for databases.
    abbrev Asked : String → Type 0
    Asked db = (db == "") ≡ false → (c.databases == "") ≡ false

    each_database-Safe :
        (dbs : List String) (s : Session p l d)
        → All Asked dbs
        → Running s
        → Fine (each_database p l d dbs s)
    unfolding each_database
    each_database-Safe [] s h r = (tt, r)
    each_database-Safe (db ∷ dbs) s h r =
        let a = collect_locked p l d db s in
        continue-Safe p l d laws c (λ _. Unit {0}) (λ _. Unit {0}) a.0 _ a.1
          (collect_locked-Safe db s h.0 r) (λ _ _ r. each_database-Safe dbs a.1 h.1 r)

    database_names-ne-panic :
        (rows : List (Result (List (Value p))))
        → All IsNamed rows
        → database_names p l d rows ≢ panic
    unfolding database_names
    database_names-ne-panic [] h = λ e. cc
    database_names-ne-panic (ok [] ∷ rows) h = absurd h.0
    database_names-ne-panic (ok (text t ∷ vs) ∷ rows) h =
        ground (arith, database_names-ne-panic rows h.1)
    database_names-ne-panic (ok (Value.float _ ∷ vs) ∷ rows) h = λ e. cc
    database_names-ne-panic (ok (Value.int _ ∷ vs) ∷ rows) h = λ e. cc
    database_names-ne-panic (ok (Value.numeric _ ∷ vs) ∷ rows) h = λ e. cc
    database_names-ne-panic (ok (Value.null ∷ vs) ∷ rows) h = λ e. cc
    database_names-ne-panic (ok (Value.other ∷ vs) ∷ rows) h = λ e. cc
    database_names-ne-panic (err e ∷ rows) h = λ q. cc
    database_names-ne-panic (panic ∷ rows) h = absurd h.0

    All-Asked : (c.databases == "") ≡ false → (dbs : List String) → All Asked dbs
    All-Asked q [] = tt
    All-Asked q (db ∷ dbs) = (λ _. q, All-Asked q dbs)

    list_databases-Safe :
        (s : Session p l d) → Running s → Safe p l d laws c (All Asked) (list_databases p l d s)
    unfolding list_databases
    list_databases-Safe s r = elim (Bool-cases (s.collector.databases == "")) [
      | inl q ↦ rw q (((λ e. cc), tt), r)
      | inr q ↦
          let a = on_conn p l d (d.query s.collector.databases) s in
          rw q (
            continue-Safe p l d laws c (λ rows. All IsNamed rows.rows) (All Asked) a.0 _ a.1
              (on_conn-Safe (λ rows. All IsNamed rows.rows) (d.query s.collector.databases) s
                (sound.query _ s.conn) (sound.named _ s.conn) r)
              (λ rows h r.
                named (sym (ap (λ x. x == "") r.databases) ∙ q) rows a.1
                  (database_names p l d rows.rows) (database_names-ne-panic rows.rows h) r))
    ]
      where
        named :
            (c.databases == "") ≡ false
            → (rows : Rows (Value p)) (s : Session p l d) (x : Result (List String)) → x ≢ panic
            → Running s
            → Safe p l d laws c (All Asked) (
                continue x
                  (λ names. elim rows.failure [
                    | none ↦ (λ s. (ok names, s))
                    | some e ↦ (λ s. (err e, s))
                  ])
                  s)
        named q rows s (ok names) h r = elim (Option-cases rows.failure) [
          | inl e ↦ rw e (All-Asked q names, r)
          | inr (x, e) ↦ rw e r
        ]
        named q rows s (err e) h r = r
        named q rows s panic h r = absurd (h refl)

    not_panic : {A : Type 0} (x : Result A × Session p l d) → Fine x → x.0 ≢ panic
    not_panic (ok a, s) h = λ e. cc
    not_panic (err e, s) h = λ e. cc
    not_panic (panic, s) h = absurd h

    abbrev session : Option l.Cache → Series → p.World → d.Conn → Session p l d
    session cache gauges w x = record {
      collector = record c { counters_cache = cache; gauge_labels = gauges };
      world = w;
      conn = x;
    }

    cached-ne-panic :
        (k : l.Cache) (gauges : Series) (w : p.World) (x : d.Conn)
        → (let a = list_databases p l d (session (some k) gauges w x) in
            continue a.0 (each_database p l d) a.1).0
          ≢ panic
    cached-ne-panic k gauges w x =
        let s = session (some k) gauges w x in
        let a = list_databases p l d s in
        let r : Running s = record {
          cached = refl;
          label_map = refl;
          metrics = refl;
          labels = refl;
          databases = refl;
        } in
        not_panic _ (
          continue-Safe p l d laws c (All Asked) (λ _. Unit {0}) a.0 (each_database p l d) a.1
            (list_databases-Safe s r) (λ dbs h r. each_database-Safe dbs a.1 h r))

    pub session-ne-panic :
        (cache : Option l.Cache) (gauges : Series) (w : p.World) (x : d.Conn) (try_lock : Bool)
        → (collect p l d try_lock (session cache gauges w x)).0 ≢ panic
    unfolding collect maybe_init_cache
    session-ne-panic (some k) gauges w x try_lock =
        if-ne-panic (not try_lock) _ _ _ (λ e. cc)
          (if-ne-panic (not c.enabled) _ _ _ (λ e. cc) (cached-ne-panic k gauges w x))
    session-ne-panic none gauges w x try_lock =
        if-ne-panic (not try_lock) _ _ _ (λ e. cc)
          (if-ne-panic (not c.enabled) _ _ _ (λ e. cc) (cached-ne-panic _ gauges w x))

-- A collector that `FromCollection` built does not panic when it collects, at any time and whether or
-- not it gets the lock, if the connection does not panic, a row has no more values than columns,
-- every row of the query for the databases has a value, and no value for a counter is a negative
-- number; over float64 numbers whose difference is negative only where the first is less.
pub collect-ne-panic :
    {p : Prometheus} {l : Lru CacheKey (CacheValue p)} (d : Database (Value p))
    (laws : VectorLaws p) (coll : Collection) (c : Collector p l) (w0 w : p.World)
    (cache : Option l.Cache) (gauges : Series) (x : d.Conn) (try_lock : Bool)
    → (from_collection p l coll w0).0 ≡ ok c
    → IsSound p l d laws c
    → (collect p l d try_lock (record {
      collector = record c { counters_cache = cache; gauge_labels = gauges };
      world = w;
      conn = x;
    })).0
      ≢ panic
collect-ne-panic {p} {l} d laws coll c w0 w cache gauges x try_lock e sound =
    let same = (from_collection-Builds p l coll c w0 e).same in
    session-ne-panic p l d laws c
      (λ f i q.
        subst (λ ls. i < length ls) (sym same.labels)
          (label_positions_range 0 (length coll.labels) coll.labels [] (omega arith)
            (λ k j r. cc (lookup-nil {V = ℕ} k)) f i (sym (ap (lookup f) same.label_map) ∙ q)))
      (λ f m q.
        (from_collection-Made laws coll c w0 e).1 f m q
        ∙ sym (from_collection-Made laws coll c w0 e).0)
      sound cache gauges w x try_lock
