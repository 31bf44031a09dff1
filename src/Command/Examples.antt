-- ===== src/Command/Examples.antt =====
-- internal/cmd: the conversions with a yaml that keeps the configuration itself.
use visus.Prelude.{
  ◌≡◌, refl, true, false, [], ◌∷◌, pos, arith, if◌then◌else◌, ◌==◌, string_eq, to_lower,
}
use visus.Result.{ok}
use visus.Store.Types.{Collection, Histogram}
use visus.Store.Memory.Sample.{requests, auth_log, filled}
use visus.External.Yaml.{Yaml}
use visus.Command.Collection
use visus.Command.Collection.{read_metrics, check_labels, read_scope}
use visus.Command.Collection.Valid
use visus.Command.Collection.Valid.{unmarshal-IsValid}
use visus.Command.Collection.RoundTrip.{unmarshal-marshal}
use visus.Command.Terminal.{Env, yaml}
use visus.Command.Collection.Session.{put_get_delete_get, put_get_delete_get_lem, terminal, reply}
use visus.Dict.{insert, remove}
use visus.Command.Scan
use visus.Command.Scan.{scan_unmarshal-marshal}
use visus.Command.Histogram
use visus.Command.Histogram.{unmarshal-histogram, reread, with_defaults}

abbrev collections : Yaml Collection.Config
collections = record {
  Bytes = Collection.Config;
  marshal = λ c. ok c;
  unmarshal = λ c. ok c;
  set_defaults = λ c. ok (record c { scope = if c.scope == "" then "node" else c.scope });
}

abbrev written : Collection.Config
written = record {
  name = "requests";
  frequency = pos 10;
  max_results = pos 50;
  enabled = true;
  databases = "";
  query = "select app, count from t limit $1";
  labels = "app" ∷ [];
  metrics = record { name = "count"; kind = "Counter"; help = "requests" } ∷ [];
  scope = "";
}

abbrev accepted : Collection
accepted =
    Collection.built written (record { name = "count"; kind = "counter"; help = "requests" } ∷ [])
      "node"

reads_written : Collection.unmarshal collections written ≡ ok accepted
unfolding Collection.unmarshal read_metrics check_labels read_scope to_lower
reads_written = refl

unmarshal-IsValid_example : Valid.IsValid accepted
unmarshal-IsValid_example = unmarshal-IsValid collections written accepted reads_written

requests-IsValid : Valid.IsValid requests
requests-IsValid = record {
  named = refl;
  queried = refl;
  kinds = (refl, (refl, tt));
  labels = (refl, tt);
  scope = refl;
}

unmarshal-marshal_example :
    Collection.unmarshal collections (Collection.to_config requests)
    ≡ ok (record requests { last_modified = record { time = 0; valid = false } })
unfolding Collection.marshal
unmarshal-marshal_example =
    unmarshal-marshal collections requests (Collection.to_config requests) 10
      (λ c b e. ground arith) (λ d. refl) requests-IsValid refl (omega arith) refl

abbrev scans : Yaml Scan.Config
scans = record {
  Bytes = Scan.Config;
  marshal = λ c. ok c;
  unmarshal = λ c. ok c;
  set_defaults = λ c. ok c;
}

abbrev written_scan : Scan.Config
written_scan = record {
  enabled = true;
  format = "CRDB-V2";
  name = "sql";
  path = "/logs/sql.log";
  patterns = [];
}

reads_scan : Scan.unmarshal scans written_scan ≡ ok (Scan.built written_scan "crdb-v2")
unfolding Scan.unmarshal to_lower
reads_scan = refl

scan_unmarshal-marshal_example :
    Scan.unmarshal scans (Scan.to_config auth_log)
    ≡ ok (record auth_log { last_modified = record { time = 0; valid = false } })
unfolding Scan.marshal
scan_unmarshal-marshal_example =
    scan_unmarshal-marshal scans (Scan.to_config auth_log) auth_log (λ c b e. ground arith)
      (λ c. refl) (record { named = refl; format = refl }) refl

abbrev histograms : Yaml Histogram.Config
histograms = record {
  Bytes = Histogram.Config;
  marshal = λ c. ok c;
  unmarshal = λ c. ok c;
  set_defaults = λ c. ok (with_defaults c);
}

-- Its buckets start at zero.
abbrev latency : Histogram
latency = record {
  enabled = true;
  name = "latency";
  bins = pos 20;
  start = pos 0;
  end = pos 1_000;
  regex = ".*_latency";
  last_modified = record { time = 5; valid = true };
}

unmarshal-histogram_example :
    Histogram.unmarshal histograms (Histogram.to_config latency)
    ≡ ok (record latency {
      start = pos 1_000_000;
      last_modified = record { time = 0; valid = false };
    })
unfolding Histogram.marshal
unmarshal-histogram_example =
    unmarshal-histogram histograms latency (Histogram.to_config latency) (λ c b e. ground arith)
      (λ c. refl) refl

-- A file with the collection that was written above.
abbrev sample_env : Env Collection.Config
sample_env = record { provided = ok tt; read_file = λ file. ok written }

put_get_delete_get_lem_example :
    put_get_delete_get collections sample_env "requests.yaml" "requests"
      (terminal collections sample_env filled [] [])
    ≡ (
      ok tt,
      terminal collections sample_env filled (remove "requests" (insert "requests" accepted [])) (
          reply collections sample_env "requests" " inserted.\n"
          ∷ yaml (Collection.to_config accepted)
          ∷ reply collections sample_env "requests" " deleted.\n"
          ∷ reply collections sample_env "requests" " not found\n"
          ∷ []),
    )
unfolding Collection.marshal
put_get_delete_get_lem_example =
    put_get_delete_get_lem collections sample_env filled [] [] "requests.yaml" written
      (Collection.to_config accepted) accepted refl refl refl refl reads_written refl
