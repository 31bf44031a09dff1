-- ===== src/Scanner/Lines/Safety.antt =====
-- scanner.go: the vectors of a scanner, and the labels with which its parser counts.
use visus.Prelude.{
  ℕ, ◌≡◌, ◌≢◌, refl, String, false, not, List, [], ◌∷◌, Option, none, some, pos, length, All,
  Bool-cases, inl, inr, string_eq, ◌∙◌, sym,
}
use visus.Result.{Result, Op, ok, err, panic, continue, attempted}
use visus.Dict.{Dict}
use visus.External.Prometheus.{Prometheus}
use visus.Collector.Collect.Vectors.{VectorLaws}
use visus.Scanner.Crdb.{Metric, Regexp, has_prefix, match}
use visus.Scanner.Crdb
use visus.Scanner.Auth.{AuthFields, decoded, from_payload, labels_of, parse_auth_line, payload}
use visus.Scanner.Auth
use visus.Scanner.Build.{Parser, crdb_v2_parser, crdb_v2_auth_parser, Counted, Scanner}
use visus.Scanner.Lines.{
  crdb_series, series, inc, inc_series, parse, count_error, each_metric, parse_lines,
}

-- How many labels a parser gives.
abbrev pub labels_wide : Parser → ℕ
labels_wide crdb_v2_parser = 2
labels_wide crdb_v2_auth_parser = 5

-- No panic, and so many labels if there are any.
abbrev Fits : ℕ → Result (Option (List String)) → Type 0
Fits n (ok none) = Unit
Fits n (ok (some labels)) = length labels ≡ n
Fits n (err e) = Unit
Fits n panic = ⊥

crdb_series-Fits : (o : Option (String × String)) → Fits 2 (ok (crdb_series o))
crdb_series-Fits none = tt
crdb_series-Fits (some (level, source)) = refl

labels_of-Fits : (r : Result AuthFields) → r ≢ panic → Fits 5 (labels_of (decoded r))
labels_of-Fits (ok f) h = refl
labels_of-Fits (err e) h = tt
labels_of-Fits panic h = h refl

module _ (unmarshal : String → Result AuthFields) (total : (s : String) → unmarshal s ≢ panic) where
  from_payload-Fits : (o : Option String) → Fits 5 (labels_of (from_payload unmarshal o))
  from_payload-Fits none = tt
  from_payload-Fits (some json) = labels_of-Fits (unmarshal json) (total json)

  auth-Fits : (m : Metric) (line : String) → Fits 5 (Auth.parse unmarshal m line)
  unfolding Auth.parse parse_auth_line
  auth-Fits m line = elim (Bool-cases (not (has_prefix line))) [
    | inl p ↦ rw p tt
    | inr p ↦ elim (Bool-cases (match m line)) [
      | inl q ↦ rw (p, q) (from_payload-Fits (payload line))
      | inr q ↦ rw (p, q) tt
    ]
  ]

  series-Fits :
      (parser : Parser) (m : Metric) (line : String)
      → Fits (labels_wide parser) (series unmarshal parser m line)
  unfolding series
  series-Fits crdb_v2_parser m line = crdb_series-Fits (Crdb.parse m line)
  series-Fits crdb_v2_auth_parser m line = auth-Fits m line

  module _ (p : Prometheus) (laws : VectorLaws p) (error_counts : p.CounterVec) (filename : String)
      (one : laws.negative (p.float_of_int (pos 1)) ≡ false)
      (counts : laws.counter_width error_counts ≡ 1) where
    inc-ok :
        (vec : p.CounterVec) (labels : List String) (w : p.World)
        → length labels ≡ laws.counter_width vec
        → (inc p unmarshal error_counts filename vec labels w).0 ≡ ok tt
    inc-ok vec labels w h = laws.counter_add-ok vec labels (p.float_of_int (pos 1)) w h one

    inc_series-ne-panic :
        (n : ℕ) (r : Result (Option (List String))) (vec : p.CounterVec) (w : p.World)
        → Fits n r
        → laws.counter_width vec ≡ n
        → (continue r (inc_series p unmarshal error_counts filename vec) w).0 ≢ panic
    inc_series-ne-panic n (ok none) vec w f h q = cc
    inc_series-ne-panic n (ok (some labels)) vec w f h q =
        let e = inc-ok vec labels w (f ∙ sym h) in cc
    inc_series-ne-panic n (err e) vec w f h q = cc
    inc_series-ne-panic n panic vec w f h q = absurd f

    go_on :
        (r : Result (Unit {0})) (rest : Op p.World (Unit {0})) (w : p.World)
        → r ≢ panic
        → ((w : p.World) → (rest w).0 ≡ ok tt)
        → (continue
            (attempted r)
            (λ o w.
              let (r, w) = count_error p unmarshal error_counts filename o w in
              continue r (λ u. rest) w)
            w).0
          ≡ ok tt
    go_on (ok u) rest w h k = k w
    go_on (err e) rest w h k =
        let c = inc-ok error_counts (filename ∷ []) w (sym counts) in
        rw c (k (inc p unmarshal error_counts filename error_counts (filename ∷ []) w).1)
    go_on panic rest w h k = absurd (h refl)

    -- The vectors were made for so many labels.
    abbrev pub Wide : ℕ → Dict String (Counted p) → Type 0
    Wide n metrics = All (λ x. laws.counter_width x.1.counter ≡ n) metrics

    each_metric-ok :
        (parser : Parser) (line : String) (metrics : Dict String (Counted p)) (w : p.World)
        → Wide (labels_wide parser) metrics
        → (each_metric p unmarshal error_counts filename parser line metrics w).0 ≡ ok tt
    unfolding each_metric parse
    each_metric-ok parser line [] w h = refl
    each_metric-ok parser line ((name, m) ∷ metrics) w h =
        go_on (parse p unmarshal error_counts filename parser line m w).0
          (each_metric p unmarshal error_counts filename parser line metrics)
          (parse p unmarshal error_counts filename parser line m w).1
          (inc_series-ne-panic (labels_wide parser) (series unmarshal parser m.metric line)
            m.counter w (series-Fits parser m.metric line) h.0)
          (λ w. each_metric-ok parser line metrics w h.1)

    pub parse_lines-ok :
        (sc : Scanner p) (lines : List String) (w : p.World)
        → Wide (labels_wide sc.parser) sc.metrics
        → (parse_lines p unmarshal error_counts filename sc lines w).0 ≡ ok tt
    unfolding parse_lines
    parse_lines-ok sc [] w h = refl
    parse_lines-ok sc (line ∷ lines) w h =
        let e = each_metric-ok sc.parser line sc.metrics w h in
        rw e (
          parse_lines-ok sc lines
            (each_metric p unmarshal error_counts filename sc.parser line sc.metrics w).1 h)
