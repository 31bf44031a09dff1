-- ===== src/Scanner/Crdb/Examples.antt =====
-- crdbv2.go: a line of the authentication log.
use visus.Prelude.{◌≡◌, refl, true, some}
use visus.Scanner.Crdb.{Metric, match, parse}
use visus.Scanner.Crdb.Line.{log_line, parse-log_line}

abbrev every_line : Metric
every_line = record {
  exclude = record { source = ""; matches = λ s. true };
  regex = record { source = ".*"; matches = λ s. true };
}

parse-log_line_example :
    parse every_line
      (log_line "I" "250407" "20:23:15.882051" "732501" "4" "util/log/event_log.go" "39 x")
    ≡ some ("I", "util/log/event_log.go")
unfolding match
parse-log_line_example =
    parse-log_line every_line "I" "250407" "20:23:15.882051" "732501" "4" "util/log/event_log.go"
      "39 x" refl refl refl refl refl refl
