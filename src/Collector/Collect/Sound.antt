-- ===== src/Collector/Collect/Sound.antt =====
-- collector.go: what a collection relies on of the connection.
use visus.Prelude.{ℤ, String, ◌≡◌, ◌≢◌, List, [], ◌∷◌, string_eq, nat_eq, All}
use visus.Result.{Result, ok, err, panic}
use visus.External.Prometheus.{Prometheus}
use visus.External.Lru.{Lru}
use visus.External.Database.{Database, Rows}
use visus.Collector.Types.{Collector, CacheKey, CacheValue}
use visus.Collector.Values.{Value}
use visus.Collector.Collect.Vectors.{VectorLaws}
use visus.Collector.Collect.Cells.{Fits}

-- A row of the query for the databases has a value.
abbrev pub IsNamed : {p : Prometheus} → Result (List (Value p)) → Type 0
IsNamed (ok []) = ⊥
IsNamed (ok (v ∷ vs)) = Unit
IsNamed (err e) = Unit
IsNamed panic = ⊥

module _ (p : Prometheus) (l : Lru CacheKey (CacheValue p)) (d : Database (Value p))
    (laws : VectorLaws p) (c : Collector p l) where
  -- The connection answers without a panic, the query with rows that fit the collector.
  pub record IsSound : Type 0 where
    pub begin : (x : d.Conn) → (d.begin x).0 ≢ panic
    pub exec : (q a : String) (x : d.Conn) → (d.exec q a x).0 ≢ panic
    pub commit : (x : d.Conn) → (d.commit x).0 ≢ panic
    pub query : (q : String) (x : d.Conn) → (d.query q x).0 ≢ panic
    pub named :
        (q : String) (x : d.Conn) (rows : Rows (Value p))
        → (d.query q x).0 ≡ ok rows
        → All IsNamed rows.rows
    pub query_with : (q : String) (k : ℤ) (x : d.Conn) → (d.query_with q k x).0 ≢ panic
    pub fits :
        (q : String) (k : ℤ) (x : d.Conn) (rows : Rows (Value p))
        → (d.query_with q k x).0 ≡ ok rows
        → All (Fits p l d laws c rows.fields) rows.rows
