-- ===== src/Http.antt =====
-- internal/http/server.go and certs.go: the certificates, the refresh, and the handler of the metrics
-- endpoint. TLS, files and the registry are parameters; serving itself is net/http.
mod Refresh
mod Examples
use visus.Prelude.{
  ℕ, suc, String, Bool, true, false, not, ◌&&◌, List, [], ◌∷◌, ◌++◌, Option, none, some,
  if◌then◌else◌, ◌==◌, string_eq,
}
use visus.Result.{Result, Op, ok, err, panic, chain, pure, lift, modify, ◌>>=◌, ◌>>◌}
use visus.Store.Types.{Store}
use visus.Scanner.Crdb.{Regexp}
use visus.Translator.Load.{Translator, load}
use visus.MetricWriter.{Writer, new_writer, set_translators, copy, Url}
use visus.MetricWriter as MetricWriter

-- The fields of the configuration that these files read.
pub record Config : Type 0 where
  pub bind_cert : String
  pub bind_key : String
  pub ca_cert : String
  pub prometheus : String
  pub rewrite_histograms : Bool

pub record Parts : Type 1 where
  pub S : Type 0
  pub store : Store S
  pub writing : MetricWriter.Parts
  pub compile : String → Result Regexp
  pub as_interface : Translator → writing.Translator
  -- The disk with its certificates, and what it has now.
  pub Disk : Type 0
  pub Cert : Type 0
  pub CertPool : Type 0
  pub load_key_pair : String → String → Disk → Result Cert
  pub read_cert_pool : String → Disk → Result CertPool
  -- `Gather`, on what the registry has now.
  pub gather : Disk → Result (List writing.Family)

pub record ClientTls (t : Parts) : Type 0 where
  pub ca_path : String
  pub tls_config : Option t.CertPool

pub record KeyPair (t : Parts) : Type 0 where
  pub cert_path : String
  pub key_path : String
  pub cert : Option t.Cert

pub record Server (t : Parts) : Type 0 where
  pub config : Config
  pub client_tls : ClientTls t
  pub key_pair : KeyPair t
  pub metrics_writer : Option (Writer t.writing)
  pub store : t.S
  pub disk : t.Disk
  pub refresh_errors : ℕ
  pub refresh_counts : ℕ

module _ (t : Parts) where
  abbrev read_pool : ClientTls t → Result t.CertPool → Result (Unit {0}) × ClientTls t
  read_pool c (ok pool) = (ok tt, record c { tls_config = some pool })
  read_pool c (err e) = (err e, c)
  read_pool c panic = (panic, c)

  unfoldable pub load_client_tls : t.Disk → Op (ClientTls t) (Unit {0})
  load_client_tls disk c =
      if c.ca_path == "" then (ok tt, c) else read_pool c (t.read_cert_pool c.ca_path disk)

  abbrev read_pair : KeyPair t → Result t.Cert → Result (Unit {0}) × KeyPair t
  read_pair k (ok cert) = (ok tt, record k { cert = some cert })
  read_pair k (err e) = (err e, k)
  read_pair k panic = (panic, k)

  unfoldable pub load_key_pair : t.Disk → Op (KeyPair t) (Unit {0})
  load_key_pair disk k =
      if k.cert_path == "" && k.key_path == ""
      then (ok tt, k)
      else read_pair k (t.load_key_pair k.cert_path k.key_path disk)

  abbrev no_pair : KeyPair t
  no_pair = record { cert_path = ""; key_path = ""; cert = none }

  -- `New`: the error of the first load of the key pair is not looked at.
  abbrev new_key_pair : Config → t.Disk → KeyPair t
  new_key_pair cfg disk =
      if not (cfg.bind_cert == "") && not (cfg.bind_key == "")
      then (load_key_pair disk
          (record { cert_path = cfg.bind_cert; key_path = cfg.bind_key; cert = none })).1
      else no_pair

  abbrev no_tls : ClientTls t
  no_tls = record { ca_path = ""; tls_config = none }

  abbrev with_error : {A B : Type 0} → Result A × B → Result B
  with_error (ok a, b) = ok b
  with_error (err e, b) = err e
  with_error (panic, b) = panic

  abbrev new_client_tls : Config → t.Disk → Result (ClientTls t)
  new_client_tls cfg disk =
      if cfg.ca_cert == ""
      then ok no_tls
      else chain (t.writing.parse_url cfg.prometheus) (λ (u : Url).
        if u.scheme == "https"
        then with_error (load_client_tls disk (record { ca_path = cfg.ca_cert; tls_config = none }))
        else ok no_tls)

  abbrev new_metrics_writer : Config → Result (Option (Writer t.writing))
  new_metrics_writer cfg =
      if cfg.prometheus == ""
      then ok none
      else chain (new_writer t.writing cfg.prometheus none) (λ w. ok (some w))

  unfoldable pub new : Config → t.S → t.Disk → Result (Server t)
  new cfg st disk = chain (new_client_tls cfg disk) (λ tls. chain (new_metrics_writer cfg) (λ w.
      ok (record {
        config = cfg;
        client_tls = tls;
        key_pair = new_key_pair cfg disk;
        metrics_writer = w;
        store = st;
        disk = disk;
        refresh_errors = 0;
        refresh_counts = 0;
      })))

  abbrev pub Run : Type 0 → Type 0
  Run A = Op (Server t) A

  abbrev refresh_key_pair : Run (Unit {0})
  refresh_key_pair s =
      let (r, k) = load_key_pair s.disk s.key_pair in (r, record s { key_pair = k })

  abbrev refresh_client_tls : Run (Unit {0})
  refresh_client_tls s =
      let (r, c) = load_client_tls s.disk s.client_tls in (r, record s { client_tls = c })

  abbrev load_translators : Run (Option (List Translator))
  load_translators s = let (r, st) = load t.compile t.store s.store in (r, record s { store = st })

  abbrev as_interfaces : List Translator → List t.writing.Translator
  as_interfaces [] = []
  as_interfaces (x ∷ xs) = t.as_interface x ∷ as_interfaces xs

  abbrev interfaces : Option (List Translator) → Option (List t.writing.Translator)
  interfaces none = none
  interfaces (some ts) = some (as_interfaces ts)

  abbrev set_writer : Option (List Translator) → Writer t.writing → Run (Unit {0})
  set_writer ts w =
      modify (λ s. record s { metrics_writer = some (set_translators t.writing (interfaces ts) w) })

  abbrev refresh_writer : Bool → Option (Writer t.writing) → Run (Unit {0})
  refresh_writer rewrite none = pure tt
  refresh_writer true (some w) = do ts ← load_translators; set_writer ts w
  refresh_writer false (some w) = set_writer none w

  unfoldable pub refresh_parts : Run (Unit {0})
  refresh_parts = do
    refresh_key_pair
    refresh_client_tls
    λ s. refresh_writer s.config.rewrite_histograms s.metrics_writer s

  abbrev counted : Result (Unit {0}) → Server t → Server t
  counted (ok u) s = record s { refresh_counts = suc s.refresh_counts }
  counted (err e) s = record s { refresh_errors = suc s.refresh_errors }
  counted panic s = s

  unfoldable pub refresh : Run (Unit {0})
  unfolding refresh_parts
  refresh s = let (r, s') = refresh_parts s in (r, counted r s')

  -- An answer that is being written: its status if it was set, the families, and the text of an error.
  pub record Answer : Type 0 where
    pub status : Option ℕ
    pub out : t.writing.Out
    pub message : Option String

  abbrev error_response : String → Answer → Answer
  error_response e a = record a { status = some 500; message = some e }

  -- The loop over what the registry gathered; a family that cannot be written ends it.
  unfoldable pub write_families :
      List t.writing.Family → t.writing.Out → Result (Unit {0}) × t.writing.Out
  write_families [] = pure tt
  write_families (mf ∷ mfs) = do t.writing.metric_family_to_text mf; write_families mfs

  abbrev answered : Result (List t.writing.Family) → Answer → Answer
  answered (ok mfs) a = record a { out = (write_families mfs a.out).1 }
  answered (err e) a = error_response e a
  answered panic a = a

  -- A copy that fails ends the answer as it is.
  abbrev copied :
      Result (Unit {0}) × t.writing.Out → Result (List t.writing.Family) → Answer → Answer
  copied (ok u, o) gathered a = answered gathered (record a { out = o })
  copied (err e, o) gathered a = record a { out = o }
  copied (panic, o) gathered a = record a { out = o }

  abbrev handled : Option (Writer t.writing) → Result (List t.writing.Family) → Answer → Answer
  handled none gathered a = answered gathered a
  handled (some w) gathered a = copied (copy t.writing w a.out) gathered a

  unfoldable pub metrics_handler : Server t → Answer → Answer
  unfolding write_families
  metrics_handler s a = handled s.metrics_writer (t.gather s.disk) a
