-- ===== src/Scanner/Auth.antt =====
-- internal/scanner/crdbv2auth.go: the lines of the authentication log. A line is valid UTF-8, so its
-- characters stand for its bytes. Decoding JSON into the fields is a parameter.
use Prim.Native.Char.{Char, code}
use visus.Prelude.{
  String, Bool, false, not, ◌&&◌, ◌||◌, Option, none, some, ◌==◌, nat_eq, if◌then◌else◌, leb, List,
  [], ◌∷◌, ℤ, starts,
}
use visus.Result.{Result, ok, err, panic}
use visus.Scanner.Crdb.{Metric, has_prefix, match, is_digit}

pub record AuthFields : Type 0 where
  pub event_type : String
  pub instance_id : ℤ
  pub method : String
  pub system_identity : String
  pub timestamp : ℤ
  pub transport : String
  pub user : String

-- `\w`.
abbrev pub is_word : Char → Bool
is_word c =
    is_digit c
    || (leb b'a' (code c) && leb (code c) b'z')
    || (leb b'A' (code c) && leb (code c) b'Z')
    || (code c == b'_')

-- `\w*":`.
unfoldable pub key_ends : String → Bool
unfolding starts
key_ends String.[] = false
key_ends (String.◌∷◌ c s) =
    let rest = key_ends s in if is_word c then rest else starts "\":" (String.◌∷◌ c s)

-- `\w+":`.
unfoldable pub is_key : String → Bool
unfolding key_ends
is_key String.[] = false
is_key (String.◌∷◌ c s) = is_word c && key_ends s

-- `{"\w+":`.
unfoldable pub is_object : String → Bool
unfolding is_key
is_object (String.◌∷◌ c (String.◌∷◌ d s)) = (code c == b'{') && (code d == b'"') && is_key s
is_object s = false

-- From the first match of `jsonRegex` on, without its equals sign.
unfoldable pub payload : String → Option String
unfolding is_object
payload String.[] = none
payload (String.◌∷◌ c s) =
    let rest = payload s in if (code c == b'=') && is_object s then some s else rest

-- `strings.TrimPrefix(s, "‹")` and `strings.TrimSuffix(s, "›")`.
unfoldable pub trim_prefix : String → String
trim_prefix String.[] = ""
trim_prefix (String.◌∷◌ c s) = if code c == 8249 then s else String.◌∷◌ c s

unfoldable pub trim_suffix : String → String
trim_suffix String.[] = ""
trim_suffix (String.◌∷◌ c String.[]) = if code c == 8250 then "" else String.◌∷◌ c String.[]
trim_suffix (String.◌∷◌ c (String.◌∷◌ d s)) = String.◌∷◌ c (trim_suffix (String.◌∷◌ d s))

unfoldable pub trim_user : String → String
unfolding trim_prefix trim_suffix
trim_user s = trim_suffix (trim_prefix s)

abbrev trimmed : AuthFields → AuthFields
trimmed f = record f { user = trim_user f.user; system_identity = trim_user f.system_identity }

abbrev pub decoded : Result AuthFields → Result (Option AuthFields)
decoded (ok fields) = ok (some (trimmed fields))
decoded (err e) = err e
decoded panic = panic

abbrev pub labels_of : Result (Option AuthFields) → Result (Option (List String))
labels_of (ok none) = ok none
labels_of (ok (some f)) =
    ok (some (f.user ∷ f.system_identity ∷ f.method ∷ f.transport ∷ f.event_type ∷ []))
labels_of (err e) = err e
labels_of panic = panic

module _ (unmarshal : String → Result AuthFields) where
  abbrev pub from_payload : Option String → Result (Option AuthFields)
  from_payload none = ok none
  from_payload (some json) = decoded (unmarshal json)

  unfoldable pub parse_auth_line : String → Result (Option AuthFields)
  unfolding payload
  parse_auth_line line = from_payload (payload line)

  -- The labels of the series that `Parse` counts a line in.
  unfoldable pub parse : Metric → String → Result (Option (List String))
  unfolding has_prefix match parse_auth_line
  parse m line =
      if not (has_prefix line)
      then ok none
      else if match m line
      then labels_of (parse_auth_line line)
      else ok none
