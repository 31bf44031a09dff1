-- ===== src/Command/Collection.antt =====
-- internal/cmd/collection/yaml.go: a collection as yaml.
pub mod Valid
pub mod RoundTrip
pub mod Admin
pub mod Session
pub mod Test
use visus.Prelude.{
  ℕ, String, Bool, true, false, ◌||◌, List, [], ◌∷◌, ℤ, pos, quot, ◌*ℤ◌, wrap_64, ◌==◌, string_eq,
  contains, if◌then◌else◌, to_lower,
}
use visus.Result.{Result, ok, err, panic, chain}
use visus.Store.Types.{Metric, Collection, Scope, cluster, node, counter, gauge}
use visus.External.Yaml.{Yaml}

pub record MetricDef : Type 0 where
  pub name : String
  pub kind : String
  pub help : String

pub record Config : Type 0 where
  pub name : String
  pub frequency : ℤ
  pub max_results : ℤ
  pub enabled : Bool
  pub databases : String
  pub query : String
  pub labels : List String
  pub metrics : List MetricDef
  pub scope : String

abbrev pub metric_defs : List Metric → List MetricDef
metric_defs [] = []
metric_defs (m ∷ ms) = record { name = m.name; kind = m.kind; help = m.help } ∷ metric_defs ms

-- The configuration that `marshal` writes.
unfoldable pub to_config : Collection → Config
to_config c = record {
  name = c.name;
  frequency = quot c.frequency.microseconds 1_000_000;
  max_results = c.max_result;
  enabled = c.enabled;
  databases = c.databases;
  query = c.query;
  labels = c.labels;
  metrics = metric_defs c.metrics;
  scope = c.scope;
}

-- The loop over the metrics.
unfoldable pub read_metrics : List MetricDef → Result (List Metric)
unfolding to_lower
read_metrics [] = ok []
read_metrics (m ∷ ms) =
    let kind = to_lower m.kind in
    let rest = read_metrics ms in
    if kind == gauge || kind == counter
    then chain rest (λ metrics. ok (record { name = m.name; kind = kind; help = m.help } ∷ metrics))
    else err "invalid kind"

-- The loop over the labels, with those that were seen.
unfoldable pub check_labels : List String → List String → Result (Unit {0})
check_labels seen [] = ok tt
check_labels seen (l ∷ ls) =
    let rest = check_labels (l ∷ seen) ls in if contains seen l then err "duplicate label" else rest

unfoldable pub read_scope : String → Result Scope
unfolding to_lower
read_scope s =
    let scope = to_lower s in
    if scope == "node"
    then ok node
    else if scope == "cluster"
    then ok cluster
    else err "invalid scope"

-- The collection that `unmarshal` returns.
abbrev pub built : Config → List Metric → Scope → Collection
built c metrics scope = record {
  name = c.name;
  enabled = c.enabled;
  scope = scope;
  max_result = c.max_results;
  frequency = record {
    microseconds = wrap_64 (c.frequency *ℤ pos 1_000_000);
    days = pos 0;
    months = pos 0;
    valid = true;
  };
  databases = c.databases;
  query = c.query;
  labels = c.labels;
  last_modified = record { time = 0; valid = false };
  metrics = metrics;
}

-- The last checks of `unmarshal`.
abbrev pub checked : Config → Collection → Result Collection
checked c coll =
    if c.query == ""
    then err "query must be specified"
    else if c.name == ""
    then err "name must be specified"
    else ok coll

-- What `unmarshal` makes of a configuration with its defaults.
unfoldable pub from_config : Config → Result Collection
unfolding read_metrics check_labels read_scope
from_config c = chain (read_metrics c.metrics) λ metrics.
    chain (check_labels [] c.labels)
      λ _. chain (read_scope c.scope) λ scope. checked c (built c metrics scope)

module _ (y : Yaml Config) where
  unfoldable pub marshal : Collection → Result y.Bytes
  unfolding to_config
  marshal c = y.marshal (to_config c)

  unfoldable pub unmarshal : y.Bytes → Result Collection
  unfolding from_config
  unmarshal b = chain (y.unmarshal b) λ c. chain (y.set_defaults c) from_config
