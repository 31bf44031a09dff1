-- ===== src/Collector/Values.antt =====
-- internal/collector/collector.go: what `Collect` does with one value: `counterAdd`, `gaugeSet` and
-- the labels of a row.
--
-- The slice `labelValues` of a row is filled from left to right, and what the cache and the table of
-- gauges keep of it is the slice itself: they see it as it is at the end of the row, which is passed
-- as `final`. Calls of Prometheus and the keys are given it as it is then.
use visus.Prelude.{
  ℕ, zero, suc, String, not, Option, none, some, List, [], ◌∷◌, ℤ, pos, ◌*ℤ◌, ◌==◌, nat_eq,
  string_eq, if◌then◌else◌,
}
use Prim.Native.String.{◌++◌ as str_append}
use visus.Result.{Result, Op, ok, err, panic, deref, modify, ◌>>=◌, ◌>>◌}
use visus.Dict.{Dict, lookup, insert}
use visus.External.Prometheus.{Prometheus}
use visus.External.Lru.{Lru}
use visus.External.Database.{Database}
use visus.Collector.Types.{Collector, CacheKey, CacheValue}

-- The types of Go that a value of a row may have. A pgtype.Numeric is what `Float64Value` gives.
pub data Value (p : Prometheus) : Type 0 where
  float : p.Float → Value p
  int : ℤ → Value p
  numeric : Option p.Float → Value p
  text : String → Value p
  null other : Value p

pub record Session (p : Prometheus) (l : Lru CacheKey (CacheValue p)) (d : Database (Value p))
    : Type 0 where
  pub collector : Collector p l
  pub world : p.World
  pub conn : d.Conn

-- `map[string]map[string][]string`: for each gauge the labels of its series, by their joined text.
abbrev pub Series : Type 0
Series = Dict String (Dict String (List String))

-- `strings.Join`.
unfoldable pub join : String → List String → String
join sep [] = ""
join sep (s ∷ []) = s
join sep (s ∷ t ∷ ts) = str_append s (str_append sep (join sep (t ∷ ts)))

-- `labels[i] = v`.
unfoldable pub set_at : ℕ → String → List String → Result (List String)
set_at i v [] = panic
set_at zero v (x ∷ xs) = ok (v ∷ xs)
set_at (suc i) v (x ∷ xs) = elim (set_at i v xs) [
  | ok ys ↦ ok (x ∷ ys)
  | err e ↦ err e
  | panic ↦ panic
]

-- `labels[len(labels)-1] = v`.
unfoldable pub set_last : String → List String → Result (List String)
set_last v [] = panic
set_last v (x ∷ []) = ok (v ∷ [])
set_last v (x ∷ y ∷ xs) = elim (set_last v (y ∷ xs)) [
  | ok ys ↦ ok (x ∷ ys)
  | err e ↦ err e
  | panic ↦ panic
]

abbrev pub blanks : List String → List String
blanks [] = []
blanks (l ∷ ls) = "" ∷ blanks ls

-- The labels of a row before its columns are read.
unfoldable pub start_labels : String → List String → Result (List String)
unfolding set_last
start_labels db labels = if not (db == "") then set_last db (blanks labels) else ok (blanks labels)

module _ (p : Prometheus) (l : Lru CacheKey (CacheValue p)) (d : Database (Value p)) where
  abbrev pub Run : Type 0 → Type 0
  Run A = Op (Session p l d) A

  abbrev pub on_conn : {A : Type 0} → Op d.Conn A → Run A
  on_conn call s = let (r, c) = call s.conn in (r, record s { conn = c })

  abbrev pub set_world : p.World → Session p l d → Session p l d
  set_world w s = record s { world = w }

  abbrev pub set_cache : l.Cache → Session p l d → Session p l d
  set_cache cache s = record s { collector = record s.collector { counters_cache = some cache } }

  -- A value as a float64, if it is a number.
  abbrev pub number : Value p → Option p.Float
  number (float x) = some x
  number (int i) = some (p.float_of_int i)
  number (numeric x) = x
  number _ = none

  unfoldable pub maybe_init_cache : Collector p l → Collector p l
  maybe_init_cache c = elim c.counters_cache [
    | some cache ↦ c
    | none ↦ record c {
      counters_cache = some (l.new (c.counters_cardinality *ℤ c.max_results *ℤ pos 2));
    }
  ]

  -- `OnEvicted`, for the entries that the cache dropped.
  unfoldable pub evict : List (CacheKey × CacheValue p) → p.World → p.World
  evict [] w = w
  evict ((k, v) ∷ es) w = evict es (p.delete_counter_labels v.vec v.labels w)

  -- What is added to a counter: the growth since the cached value, unless the value fell.
  unfoldable pub delta : Option (CacheValue p) → p.Float → p.Float
  delta none value = value
  delta (some v) value = if p.gt v.value value then value else p.sub value v.value

  unfoldable pub counter_add :
      p.CounterVec → String → List String → List String → p.Float → Run (Unit {0})
  unfolding delta evict
  counter_add vec name final labels value = do
    let key : CacheKey = record { family = name; labels = labels }
    cache ← λ s. (deref s.collector.counters_cache, s)
    let (v, cache') = l.get key cache
    modify (set_cache cache')
    λ s. (let (r, w) = p.counter_add vec labels (delta v value) s.world in (r, set_world w s))
    let (dropped, cache'') = l.add key (record { labels = final; value = value; vec = vec }) cache'
    modify (λ s. set_cache cache'' (set_world (evict dropped s.world) s))

  unfoldable pub gauge_set : p.GaugeVec → List String → p.Float → Run (Unit {0})
  gauge_set vec labels value s =
      let (r, w) = p.gauge_set vec labels value s.world in (r, set_world w s)

  -- `currGauges[colName][id] = labelValues`.
  unfoldable pub note_series : String → String → List String → Series → Series
  note_series name id labels curr =
      insert name (insert id labels (elim (lookup name curr) [ none ↦ [] | some ids ↦ ids ])) curr
