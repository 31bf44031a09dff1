-- ===== src/Command/Histogram.antt =====
-- internal/cmd/histogram/yaml.go: a histogram as yaml.
pub mod Admin
pub mod Test
use visus.Prelude.{
  String, ◌≡◌, refl, Bool, false, ℤ, pos, negsuc, ◌==◌, string_eq, if◌then◌else◌, zero, suc,
}
use visus.Result.{Result, ok, err, chain}
use visus.Store.Types.{Histogram}
use visus.External.Yaml.{Yaml, RoundTrips}

pub record Config : Type 0 where
  pub bins : ℤ
  pub enabled : Bool
  pub end : ℤ
  pub name : String
  pub regex : String
  pub start : ℤ

unfoldable pub to_config : Histogram → Config
to_config h = record {
  bins = h.bins;
  enabled = h.enabled;
  end = h.end;
  name = h.name;
  regex = h.regex;
  start = h.start;
}

unfoldable pub from_config : Config → Result Histogram
from_config c =
    if c.regex == ""
    then err "regex must be specified"
    else if c.name == ""
    then err "name must be specified"
    else ok (record {
      bins = c.bins;
      enabled = c.enabled;
      end = c.end;
      name = c.name;
      regex = c.regex;
      start = c.start;
      last_modified = record { time = 0; valid = false };
    })

module _ (y : Yaml Config) where
  unfoldable pub marshal : Histogram → Result y.Bytes
  unfolding to_config
  marshal h = y.marshal (to_config h)

  unfoldable pub unmarshal : y.Bytes → Result Histogram
  unfolding from_config
  unmarshal b = chain (y.unmarshal b) λ c. chain (y.set_defaults c) from_config

-- A number, or the default if it is zero.
abbrev pub or_default : ℤ → ℤ → ℤ
or_default (pos zero) x = x
or_default (pos (suc n)) x = pos (suc n)
or_default (negsuc n) x = negsuc n

-- The defaults of the three numbers, as the documentation of `defaults.Set` has it.
abbrev pub with_defaults : Config → Config
with_defaults c = record c {
  bins = or_default c.bins (pos 10);
  end = or_default c.end (pos 20_000_000_000);
  start = or_default c.start (pos 1_000_000);
}

abbrev pub reread : Histogram → Histogram
reread h = record h {
  bins = or_default h.bins (pos 10);
  end = or_default h.end (pos 20_000_000_000);
  start = or_default h.start (pos 1_000_000);
  last_modified = record { time = 0; valid = false };
}

-- A histogram with a name and a pattern, whose yaml is read back as it was written, is accepted with
-- each of its three numbers as it was, unless that is zero: then the default takes its place. The
-- time of its last change is not written. Without a name or a pattern it is refused.
pub unmarshal-histogram :
    (y : Yaml Config) (h : Histogram) (b : y.Bytes)
    → RoundTrips y
    → ((c : Config) → y.set_defaults c ≡ ok (with_defaults c))
    → marshal y h ≡ ok b
    → unmarshal y b ≡ (
        if h.regex == ""
        then err "regex must be specified"
        else if h.name == ""
        then err "name must be specified"
        else ok (reread h))
unfolding marshal unmarshal to_config from_config
unmarshal-histogram y h b trip sets w = rw (trip (to_config h) b w, sets (to_config h)) refl
