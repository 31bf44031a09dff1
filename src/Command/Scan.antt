-- ===== src/Command/Scan.antt =====
-- internal/cmd/scan/yaml.go: a log scan as yaml.
pub mod Admin
pub mod Test
mod Examples
use visus.Prelude.{
  String, ◌≡◌, refl, ap, subst, Bool, true, false, ◌||◌, List, [], ◌∷◌, ◌==◌, string_eq,
  if◌then◌else◌, to_lower, Bool-cases, inl, inr, arith,
}
use visus.Result.{Result, ok, err, chain, chain-eq-ok}
use visus.Store.Types.{Scan, Pattern, LogFormat, crdb_v2, crdb_v2_auth}
use visus.External.Yaml.{Yaml, RoundTrips}

pub record PatternDef : Type 0 where
  pub help : String
  pub name : String
  pub exclude : String
  pub regex : String

pub record Config : Type 0 where
  pub enabled : Bool
  pub format : String
  pub name : String
  pub path : String
  pub patterns : List PatternDef

abbrev pub pattern_defs : List Pattern → List PatternDef
pattern_defs [] = []
pattern_defs (m ∷ ms) =
    record { help = m.help; name = m.name; exclude = m.exclude; regex = m.regex } ∷ pattern_defs ms

abbrev pub read_patterns : List PatternDef → List Pattern
read_patterns [] = []
read_patterns (p ∷ ps) =
    record { help = p.help; name = p.name; exclude = p.exclude; regex = p.regex } ∷ read_patterns ps

unfoldable pub to_config : Scan → Config
to_config s = record {
  enabled = s.enabled;
  format = s.format;
  name = s.name;
  path = s.path;
  patterns = pattern_defs s.patterns;
}

unfoldable pub read_format : String → Result LogFormat
unfolding to_lower
read_format s =
    let format = to_lower s in
    if format == crdb_v2
    then ok crdb_v2
    else if format == crdb_v2_auth
    then ok crdb_v2_auth
    else err "invalid format"

abbrev pub built : Config → LogFormat → Scan
built c format = record {
  enabled = c.enabled;
  format = format;
  last_modified = record { time = 0; valid = false };
  name = c.name;
  path = c.path;
  patterns = read_patterns c.patterns;
}

unfoldable pub from_config : Config → Result Scan
unfolding read_format
from_config c =
    if c.name == ""
    then err "name must be specified"
    else chain (read_format c.format) λ format. ok (built c format)

module _ (y : Yaml Config) where
  unfoldable pub marshal : Scan → Result y.Bytes
  unfolding to_config
  marshal s = y.marshal (to_config s)

  unfoldable pub unmarshal : y.Bytes → Result Scan
  unfolding from_config
  unmarshal b = chain (y.unmarshal b) λ c. chain (y.set_defaults c) from_config

-- A scan that the commands accept.
pub record IsValid (s : Scan) : Type 0 where
  pub named : (s.name == "") ≡ false
  pub format : (s.format == crdb_v2 || s.format == crdb_v2_auth) ≡ true

read_format-known :
    (s t : String) → read_format s ≡ ok t → (t == crdb_v2 || t == crdb_v2_auth) ≡ true
unfolding read_format
read_format-known s t h = elim (Bool-cases (to_lower s == crdb_v2)) [
  | inl e ↦
      let z : crdb_v2 ≡ t = ground arith in
      subst (λ t. (t == crdb_v2 || t == crdb_v2_auth) ≡ true) z refl
  | inr e ↦ elim (Bool-cases (to_lower s == crdb_v2_auth)) [
    | inl f ↦
        let z : crdb_v2_auth ≡ t = ground arith in
        subst (λ t. (t == crdb_v2 || t == crdb_v2_auth) ≡ true) z refl
    | inr f ↦ ground arith
  ]
]

read_format_lem : (s : String) → (s == crdb_v2 || s == crdb_v2_auth) ≡ true → read_format s ≡ ok s
unfolding read_format to_lower
read_format_lem s h = elim (Bool-cases (s == crdb_v2)) [
  | inl e ↦ rw ((string_eq.same_iff s crdb_v2).0 e) refl
  | inr e ↦ rw ((string_eq.same_iff s crdb_v2_auth).0 (rw e at h)) refl
]

read_patterns-defs : (ps : List Pattern) → read_patterns (pattern_defs ps) ≡ ps
read_patterns-defs [] = refl
read_patterns-defs (p ∷ ps) = ap (λ qs. p ∷ qs) (read_patterns-defs ps)

from_config-IsValid : (c : Config) (s : Scan) → from_config c ≡ ok s → IsValid s
unfolding from_config
from_config-IsValid c s h = elim (Bool-cases (c.name == "")) [
  | inl n ↦ ground arith
  | inr n ↦
      let (f, e, q) =
        chain-eq-ok (read_format c.format) (λ format. ok (built c format)) (rw n at h) in
      let z : built c f ≡ s = cc in
      subst IsValid z (record { named = n; format = read_format-known c.format f e })
]

-- Whatever the yaml and its defaults are, a scan that `unmarshal` returns has a name and one of the
-- two known formats.
scan_unmarshal-IsValid :
    (y : Yaml Config) (b : y.Bytes) (s : Scan) → unmarshal y b ≡ ok s → IsValid s
unfolding unmarshal
scan_unmarshal-IsValid y b s h =
    let (c, _, h1) = chain-eq-ok (y.unmarshal b) (λ c. chain (y.set_defaults c) from_config) h in
    let (c', _, h2) = chain-eq-ok (y.set_defaults c) from_config h1 in from_config-IsValid c' s h2

-- A scan with a name and one of the two known formats, whose yaml is read back as it was written and
-- has no defaults, is accepted again as it was, but for the time of its last change, which is not
-- written.
pub scan_unmarshal-marshal :
    (y : Yaml Config) (b : y.Bytes) (s : Scan)
    → RoundTrips y
    → ((c : Config) → y.set_defaults c ≡ ok c)
    → IsValid s
    → marshal y s ≡ ok b
    → unmarshal y b ≡ ok (record s { last_modified = record { time = 0; valid = false } })
unfolding marshal unmarshal from_config to_config
scan_unmarshal-marshal y b s trip sets v h =
    rw
      (
        trip (to_config s) b h,
        sets (to_config s),
        v.named,
        read_format_lem s.format v.format,
        read_patterns-defs s.patterns,
      )
      refl
