-- ===== src/Scanner/Lines/Built.antt =====
-- scanner.go: a scanner that `FromConfig` built, on the lines of its file.
use Prim.Native.String.{◌++◌ as str_append}
use visus.Prelude.{
  ◌≡◌, ◌≢◌, String, false, List, [], ◌∷◌, pos, length, Bool-cases, inl, inr, ◌==◌, string_eq, All,
  ℕ, arith, subst,
}
use visus.Result.{Result, ok, err, panic, continue, continue_inv, raise, lift, modify, ◌>>=◌, ◌>>◌}
use visus.Dict.{Dict, All-insert, insert}
use visus.Store.Types.{Pattern, Scan, crdb_v2, crdb_v2_auth}
use visus.External.Prometheus.{Prometheus}
use visus.Collector.Collect.Vectors.{VectorLaws}
use visus.Scanner.Crdb.{Regexp}
use visus.Scanner.Auth.{AuthFields}
use visus.Scanner.Build.{
  Parser, crdb_v2_parser, crdb_v2_auth_parser, Counted, Scanner, from_config, add_counter,
  add_counters, Building, finish, auth_labels, crdb_labels,
}
use visus.Scanner.Lines.{parse_lines}
use visus.Scanner.Lines.Safety.{labels_wide, parse_lines-ok}

module _ (p : Prometheus) (compile : String → Result Regexp) (laws : VectorLaws p) where
  abbrev Wide : ℕ → Dict String (Counted p) → Type 0
  Wide n metrics = All (λ x. laws.counter_width x.1.counter ≡ n) metrics

  registered-Wide :
      (n : ℕ) (name : String) (vec : p.CounterVec) (r : Result (Unit {0})) (a b : Result Regexp)
      (s : Building p)
      → laws.counter_width vec ≡ n
      → Wide n s.metrics
      → Wide n
          ((do
            lift r
            regex ← lift a
            exclude ← lift b
            modify (λ s. record s {
              metrics =
                  insert name
                    (record { counter = vec; metric = record { exclude = exclude; regex = regex } })
                    s.metrics;
            }))
            s).1.metrics
  registered-Wide n name vec (ok u) (ok regex) (ok exclude) s q h =
      All-insert (λ x. laws.counter_width x.1.counter ≡ n) name
        (record { counter = vec; metric = record { exclude = exclude; regex = regex } }) s.metrics q
        h
  registered-Wide n name vec (ok u) (ok regex) (err e) s q h = h
  registered-Wide n name vec (ok u) (ok regex) panic s q h = h
  registered-Wide n name vec (ok u) (err e) b s q h = h
  registered-Wide n name vec (ok u) panic b s q h = h
  registered-Wide n name vec (err e) a b s q h = h
  registered-Wide n name vec panic a b s q h = h

  add_counter-Wide :
      (target : String) (x : Pattern) (labels : List String) (s : Building p)
      → Wide (length labels) s.metrics
      → Wide (length labels) (add_counter p compile target x labels s).1.metrics
  unfolding add_counter
  add_counter-Wide target x labels s h =
      let name = str_append (str_append target "_") x.name in
      let (vec, w) = p.new_counter_vec name x.help labels s.world in
      let (_, w1) = p.unregister_counter vec w in
      let (failure, w2) = p.register_counter vec w1 in
      registered-Wide (length labels) x.name vec (raise failure tt) (compile x.regex)
        (compile x.exclude) (record s { world = w2 }) (laws.new_counter name x.help labels s.world)
        h

  add_counters-Wide :
      (target : String) (xs : List Pattern) (labels : List String) (s : Building p)
      → Wide (length labels) s.metrics
      → Wide (length labels) (add_counters p compile target xs labels s).1.metrics
  unfolding add_counters
  add_counters-Wide target [] labels s h = h
  add_counters-Wide target (x ∷ xs) labels s h =
      let k = add_counter-Wide target x labels s h in
      continue_inv (λ (s : Building p). Wide (length labels) s.metrics)
        (add_counter p compile target x labels s).0 (λ u. add_counters p compile target xs labels)
        (add_counter p compile target x labels s).1 k
        (λ u. add_counters-Wide target xs labels (add_counter p compile target x labels s).1 k)

  finish-Wide :
      (parser : Parser) (scan : Scan) (r : Result (Unit {0})) (s : Building p) (sc : Scanner p)
      → (continue r (λ u. finish p compile parser scan (λ s. (ok u, s))) s).0 ≡ ok sc
      → Wide (labels_wide parser) s.metrics
      → Wide (labels_wide sc.parser) sc.metrics
  finish-Wide parser scan (ok u) s sc h w =
      let z : record { metrics = s.metrics; target = scan; parser = parser } ≡ sc = cc in
      subst (λ (sc : Scanner p). Wide (labels_wide sc.parser) sc.metrics) z w
  finish-Wide parser scan (err e) s sc h w = cc
  finish-Wide parser scan panic s sc h w = cc

  from_config-Wide :
      (scan : Scan) (w : p.World) (sc : Scanner p)
      → (from_config p compile scan (record { metrics = []; world = w })).0 ≡ ok sc
      → Wide (labels_wide sc.parser) sc.metrics
  unfolding from_config
  from_config-Wide scan w sc h =
      let s : Building p = record { metrics = []; world = w } in
      elim (Bool-cases (scan.format == crdb_v2_auth)) [
        | inl a ↦
            let (r, s') =
              add_counters p compile scan.name scan.patterns (auth_labels p compile) s in
            finish-Wide crdb_v2_auth_parser scan r s' sc (rw a at h)
              (add_counters-Wide scan.name scan.patterns (auth_labels p compile) s tt)
        | inr a ↦ elim (Bool-cases (scan.format == crdb_v2)) [
          | inl b ↦
              let (r, s') =
                add_counters p compile scan.name scan.patterns (crdb_labels p compile) s in
              finish-Wide crdb_v2_parser scan r s' sc (rw (a, b) at h)
                (add_counters-Wide scan.name scan.patterns (crdb_labels p compile) s tt)
          | inr b ↦ ground arith
        ]
      ]

  -- A scanner that `FromConfig` built goes through all lines of a file that is valid UTF-8 without a
  -- panic, if decoding JSON does not panic and the counter of errors has one label; over vectors that
  -- keep their documented laws, and where one is not a negative number.
  pub parse_lines-from_config :
      (unmarshal : String → Result AuthFields) (error_counts : p.CounterVec) (filename : String)
      (scan : Scan) (w w' : p.World) (sc : Scanner p) (lines : List String)
      → ((s : String) → unmarshal s ≢ panic)
      → laws.negative (p.float_of_int (pos 1)) ≡ false
      → laws.counter_width error_counts ≡ 1
      → (from_config p compile scan (record { metrics = []; world = w })).0 ≡ ok sc
      → (parse_lines p unmarshal error_counts filename sc lines w').0 ≡ ok tt
  parse_lines-from_config unmarshal error_counts filename scan w w' sc lines total one counts h =
      parse_lines-ok unmarshal total p laws error_counts filename one counts sc lines w'
        (from_config-Wide scan w sc h)
