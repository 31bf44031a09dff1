-- ===== src/Scanner/Lines/Examples.antt =====
-- scanner.go and crdbv2auth.go: lines of a log and of the authentication log.
use visus.Prelude.{
  String, ◌≡◌, ◌≢◌, refl, true, [], ◌∷◌, none, some, pos, ◌==◌, nat_eq, string_eq, arith,
  if◌then◌else◌,
}
use visus.Result.{Result, ok, err, panic}
use visus.Sample.{sample_prometheus, sample_vectors}
use visus.Scanner.Crdb.{Metric, match}
use visus.Scanner.Auth.{AuthFields, trim_user, parse_auth_line, payload}
use visus.Scanner.Auth
use visus.Scanner.Examples.{compile, sql_log, sql_scanner, builds_scanner}
use visus.Scanner.Lines.{parse_lines}
use visus.Scanner.Lines.Built.{parse_lines-from_config}

-- Decoding that knows one object.
abbrev craig : String
craig = "{\"User\":\"‹craig›\",\"SystemIdentity\":\"‹craig›\"}"

abbrev unmarshal : String → Result AuthFields
unmarshal s =
    if s == craig
    then ok (record {
      event_type = "client_authentication_ok";
      instance_id = pos 1;
      method = "cert-password";
      system_identity = "‹craig›";
      timestamp = pos 1744057395;
      transport = "hostssl";
      user = "‹craig›";
    })
    else err "unexpected end of JSON input"

-- The marks around a name are left out.
trims : trim_user "‹craig›" ≡ "craig"
unfolding trim_user
trims = refl

abbrev all_lines : Metric
all_lines = record {
  exclude = record { source = ""; matches = λ s. true };
  regex = record { source = ".*"; matches = λ s. true };
}

authenticated :
    Auth.parse unmarshal all_lines
      "I250407 20:23 4@util/log/event_log.go:39 18 ={\"User\":\"‹craig›\",\"SystemIdentity\":\"‹craig›\"}"
    ≡ ok (some ("craig" ∷ "craig" ∷ "cert-password" ∷ "hostssl" ∷ "client_authentication_ok" ∷ []))
unfolding Auth.parse match parse_auth_line trim_user payload
authenticated = refl

-- A line without an object is not counted, and one that breaks off is an error.
not_counted : Auth.parse unmarshal all_lines "I250407 20:23 4@util/log/a.go:39 x = {}" ≡ ok none
unfolding Auth.parse match parse_auth_line payload
not_counted = refl

breaks_off :
    Auth.parse unmarshal all_lines "I250407 20:23 ={\"User\":\"cr"
    ≡ err "unexpected end of JSON input"
unfolding Auth.parse match parse_auth_line payload
breaks_off = refl

unmarshal-ne-panic : (s : String) → unmarshal s ≢ panic
unmarshal-ne-panic s h = ground arith

parse_lines-from_config_example :
    (parse_lines sample_prometheus unmarshal
      ("errors", 1)
      "cockroach.log"
      sql_scanner
      ("I250407 20:23 4 4@util/log/a.go:39 x" ∷ "garbage" ∷ [])
      ([], λ _ _. true)).0
    ≡ ok tt
parse_lines-from_config_example =
    parse_lines-from_config sample_prometheus compile sample_vectors unmarshal ("errors", 1)
      "cockroach.log" sql_log ([], λ _ _. true) ([], λ _ _. true) sql_scanner
      ("I250407 20:23 4 4@util/log/a.go:39 x" ∷ "garbage" ∷ []) unmarshal-ne-panic refl refl
      builds_scanner
