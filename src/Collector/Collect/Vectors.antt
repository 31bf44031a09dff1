-- ===== src/Collector/Collect/Vectors.antt =====
-- What a collection relies on of the vectors of Prometheus.
use visus.Prelude.{ℕ, String, ◌≡◌, Bool, false, some, List, string_eq, nat_eq, length}
use visus.Result.{ok}
use visus.Dict.{Dict, lookup}
use visus.External.Prometheus.{Prometheus}
use visus.Collector.Types.{Metric, Vec, counter_vec, gauge_vec}

-- What the documentation of Prometheus says of vectors: one is made for so many labels, `Set` takes
-- that many, and so does `Add` with a number that is not negative. Of float64 numbers: a difference is
-- not negative unless the first number is less.
pub record VectorLaws (p : Prometheus) : Type 0 where
  pub negative : p.Float → Bool
  pub sub-negative : (a b : p.Float) → p.gt b a ≡ false → negative (p.sub a b) ≡ false
  pub counter_width : p.CounterVec → ℕ
  pub gauge_width : p.GaugeVec → ℕ
  pub new_counter :
      (n h : String) (ls : List String) (w : p.World)
      → counter_width (p.new_counter_vec n h ls w).0 ≡ length ls
  pub new_gauge :
      (n h : String) (ls : List String) (w : p.World)
      → gauge_width (p.new_gauge_vec n h ls w).0 ≡ length ls
  pub counter_add-ok :
      (v : p.CounterVec) (ls : List String) (x : p.Float) (w : p.World)
      → length ls ≡ counter_width v
      → negative x ≡ false
      → (p.counter_add v ls x w).0 ≡ ok tt
  pub gauge_set-ok :
      (v : p.GaugeVec) (ls : List String) (x : p.Float) (w : p.World)
      → length ls ≡ gauge_width v
      → (p.gauge_set v ls x w).0 ≡ ok tt

-- The number of labels for which a vector was made.
abbrev pub width : {p : Prometheus} → VectorLaws p → Vec p → ℕ
width laws (counter_vec v) = laws.counter_width v
width laws (gauge_vec v) = laws.gauge_width v

-- The vectors of these metrics were made for `n` labels.
abbrev pub Wide : {p : Prometheus} → VectorLaws p → ℕ → Dict String (Metric p) → Type 0
Wide {p} laws n metrics =
    (f : String) (m : Metric p) → lookup f metrics ≡ some m → width laws m.vec ≡ n
