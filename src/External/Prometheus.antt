-- ===== src/External/Prometheus.antt =====
-- github.com/prometheus/client_golang: vectors of counters and gauges, and the registry. `World`
-- is the state of all vectors and of the registry. Values are float64 numbers, of which visus uses
-- the operations below.
use visus.Prelude.{String, Bool, List, Option, ℤ}
use visus.Result.{Op}

pub record Prometheus : Type 1 where
  pub World : Type 0
  pub CounterVec : Type 0
  pub GaugeVec : Type 0
  pub Float : Type 0
  pub float_of_int : ℤ → Float
  pub sub : Float → Float → Float
  pub gt : Float → Float → Bool
  pub new_counter_vec : String → String → List String → World → CounterVec × World
  pub new_gauge_vec : String → String → List String → World → GaugeVec × World
  pub register_counter : CounterVec → World → Option String × World
  pub register_gauge : GaugeVec → World → Option String × World
  pub unregister_counter : CounterVec → World → Bool × World
  pub unregister_gauge : GaugeVec → World → Bool × World
  -- `WithLabelValues(labels...).Add(x)` and `.Set(x)`, which may panic.
  pub counter_add : CounterVec → List String → Float → Op World (Unit {0})
  pub gauge_set : GaugeVec → List String → Float → Op World (Unit {0})
  pub delete_counter_labels : CounterVec → List String → World → World
  pub delete_gauge_labels : GaugeVec → List String → World → World
