-- ===== src/Scanner/Lines.antt =====
-- internal/scanner/scanner.go: `parse`, the loop over the lines of a file, with the two parsers. Errors
-- of a line are counted, and the loop goes on. The lines are those of a file that is valid UTF-8: their
-- labels then are too, which `WithLabelValues` asks of a label and panics without.
pub mod Safety
pub mod Built
mod Examples
use visus.Prelude.{String, List, [], ◌∷◌, Option, none, some, pos}
use visus.Result.{Result, Op, ok, lift, pure, attempt, ◌>>=◌, ◌>>◌}
use visus.Dict.{Dict}
use visus.External.Prometheus.{Prometheus}
use visus.Scanner.Crdb.{Metric}
use visus.Scanner.Crdb
use visus.Scanner.Auth.{AuthFields}
use visus.Scanner.Auth
use visus.Scanner.Build.{Parser, crdb_v2_parser, crdb_v2_auth_parser, Counted, Scanner}

abbrev pub crdb_series : Option (String × String) → Option (List String)
crdb_series none = none
crdb_series (some (level, source)) = some (level ∷ source ∷ [])

-- The labels of the series that a line is counted in.
unfoldable pub series :
    (String → Result AuthFields) → Parser → Metric → String → Result (Option (List String))
series unmarshal crdb_v2_parser m line = ok (crdb_series (Crdb.parse m line))
series unmarshal crdb_v2_auth_parser m line = Auth.parse unmarshal m line

-- `error_counts` is the counter of errors that all scanners share, and `filename` the file's name.
module _ (p : Prometheus) (unmarshal : String → Result AuthFields) (error_counts : p.CounterVec)
    (filename : String) where
  abbrev pub Run {ℓ} : Type ℓ → Type ℓ
  Run A = Op p.World A

  -- `WithLabelValues(labels...).Inc()`.
  abbrev pub inc : p.CounterVec → List String → Run (Unit {0})
  inc vec labels = p.counter_add vec labels (p.float_of_int (pos 1))

  abbrev pub inc_series : p.CounterVec → Option (List String) → Run (Unit {0})
  inc_series vec none = pure tt
  inc_series vec (some labels) = inc vec labels

  -- `Parse` of the interface `Parser`.
  unfoldable pub parse : Parser → String → Counted p → Run (Unit {0})
  unfolding series
  parse parser line m = do
    labels ← lift (series unmarshal parser m.metric line)
    inc_series m.counter labels

  abbrev pub count_error : Option (Unit {0}) → Run (Unit {0})
  count_error none = inc error_counts (filename ∷ [])
  count_error (some u) = pure tt

  unfoldable pub each_metric : Parser → String → Dict String (Counted p) → Run (Unit {0})
  unfolding parse
  each_metric parser line [] = pure tt
  each_metric parser line ((name, m) ∷ metrics) = do
    parsed ← attempt (parse parser line m)
    count_error parsed
    each_metric parser line metrics

  unfoldable pub parse_lines : Scanner p → List String → Run (Unit {0})
  unfolding each_metric
  parse_lines scanner [] = pure tt
  parse_lines scanner (line ∷ lines) = do
    each_metric scanner.parser line scanner.metrics
    parse_lines scanner lines
