-- ===== src/Http/Examples.antt =====
-- server.go over the store in memory, with a disk that may have lost its certificates.
use visus.Prelude.{
  ◌≡◌, refl, String, Bool, true, false, List, [], ◌∷◌, ◌++◌, none, some, if◌then◌else◌, string_eq,
}
use visus.Result.{ok, err}
use visus.Store.Memory.{Memory, memory_store}
use visus.Store.Memory.Sample.{filled}
use visus.MetricWriter.{Writer, endpoint, new_writer, source_of, copy, copy_families, copy_family}
use visus.MetricWriter as MetricWriter
use visus.Http.{
  Parts, Server, Config, new, load_key_pair, load_client_tls, refresh, refresh_parts,
  metrics_handler, write_families,
}
use visus.Http.Refresh.{kept, refresh_err}

-- Families are names, and translators write nothing.
abbrev writing : MetricWriter.Parts
writing = record {
  Bytes = List String;
  Family = String;
  Out = List String;
  Translator = Unit {0};
  parse_url = λ url. ok (record { scheme = "http"; path = "/vars" });
  open_file = λ path. err "no such file";
  get = λ url. ok (record { status_code = 200; status = "OK"; body = "sql_exec" ∷ [] });
  text_to_metric_families = λ b. ok b;
  is_histogram = λ mf. false;
  metric_family_to_text = λ mf out. (ok tt, out ++ (mf ∷ []));
  translate = λ tr mf out. (ok mf, out);
}

-- The disk says whether it has the key pair; a certificate is its path.
abbrev parts : Parts
parts = record {
  S = Memory;
  store = memory_store;
  writing = writing;
  compile = λ s. ok (record { source = s; matches = λ line. true });
  as_interface = λ x. tt;
  Disk = Bool;
  Cert = String;
  CertPool = String;
  load_key_pair = λ cert key disk. if disk then ok cert else err "no such file";
  read_cert_pool = λ path disk. ok path;
  gather = λ disk. ok ("up" ∷ []);
}

abbrev config : Config
config = record {
  bind_cert = "node.crt";
  bind_key = "node.key";
  ca_cert = "";
  prometheus = "http://node/vars";
  rewrite_histograms = true;
}

abbrev server : Server parts
server = record {
  config = config;
  client_tls = record { ca_path = ""; tls_config = none };
  key_pair = record { cert_path = "node.crt"; key_path = "node.key"; cert = some "node.crt" };
  metrics_writer = some (record { source = endpoint "http://node/vars"; translators = none });
  store = filled;
  disk = true;
  refresh_errors = 0;
  refresh_counts = 0;
}

built : new parts config filled true ≡ ok server
unfolding new load_key_pair load_client_tls new_writer source_of
built = refl

-- The metrics of the source come first.
served :
    metrics_handler parts server (record { status = none; out = []; message = none })
    ≡ record { status = none; out = "sql_exec" ∷ "up" ∷ []; message = none }
unfolding metrics_handler copy copy_families copy_family write_families
served = refl

fails : (refresh parts (record server { disk = false })).0 ≡ err "no such file"
unfolding refresh refresh_parts load_key_pair
fails = refl

refresh_err_example :
    ((refresh parts (record server { disk = false })).1.refresh_errors ≡ 1)
    × ((refresh parts (record server { disk = false })).1.refresh_counts ≡ 0)
    × ((refresh parts (record server { disk = false })).1.metrics_writer ≡ server.metrics_writer)
    × (kept parts (some "node.crt") (refresh parts (record server { disk = false })).1.key_pair.cert
        ≡ true)
refresh_err_example = refresh_err parts (record server { disk = false }) "no such file" fails
