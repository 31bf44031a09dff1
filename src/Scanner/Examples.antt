-- ===== src/Scanner/Examples.antt =====
-- scanner.go: a scanner of a log.
use visus.Prelude.{String, ◌≡◌, refl, true, [], ◌∷◌}
use visus.Result.{Result, ok}
use visus.Dict.{insert}
use visus.Store.Types.{Scan}
use visus.Store.Memory.Sample.{auth_log}
use visus.Sample.{sample_prometheus}
use visus.Scanner.Crdb.{Regexp}
use visus.Scanner.Build.{
  Scanner, from_config, add_counter, crdb_v2_parser, Scans, scanner_from_config-Scans,
}

abbrev pub compile : String → Result Regexp
compile s = ok (record { source = s; matches = λ line. true })

-- A scan with a pattern.
abbrev pub sql_log : Scan
sql_log = record auth_log {
  patterns = record { help = "restarts"; name = "restart"; exclude = ""; regex = "restarted" } ∷ [];
}

abbrev pub sql_scanner : Scanner sample_prometheus
sql_scanner = record {
  metrics =
      (
        "restart",
        record {
          counter = ("auth_restart", 2);
          metric = record {
            exclude = record { source = ""; matches = λ line. true };
            regex = record { source = "restarted"; matches = λ line. true };
          };
        },
      )
      ∷ [];
  target = sql_log;
  parser = crdb_v2_parser;
}

pub builds_scanner :
    (from_config sample_prometheus compile sql_log
      (record { metrics = []; world = ([], λ _ _. true) })).0
    ≡ ok sql_scanner
unfolding from_config add_counter insert
builds_scanner = refl

scanner_from_config-Scans_example : Scans sample_prometheus compile sql_log sql_scanner
scanner_from_config-Scans_example =
    scanner_from_config-Scans sample_prometheus compile sql_log ([], λ _ _. true) sql_scanner
      builds_scanner
