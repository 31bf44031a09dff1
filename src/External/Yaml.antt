-- ===== src/External/Yaml.antt =====
-- gopkg.in/yaml.v3 and github.com/creasty/defaults, at one type of configuration.
use visus.Prelude.{◌≡◌}
use visus.Result.{Result, ok}

pub record Yaml (C : Type 0) : Type 1 where
  pub Bytes : Type 0
  pub marshal : C → Result Bytes
  pub unmarshal : Bytes → Result C
  -- `defaults.Set`: a field whose value is zero is given the default of its tag.
  pub set_defaults : C → Result C

-- What was written is read back.
abbrev pub RoundTrips : {C : Type 0} → Yaml C → Type 0
RoundTrips {C} y = (c : C) (b : y.Bytes) → y.marshal c ≡ ok b → y.unmarshal b ≡ ok c
