-- ===== src/Command/Terminal.antt =====
-- What the commands of internal/cmd share: the environment of internal/cmd/env/env.go, a store, and
-- what is printed.
use Prim.Native.String.{◌++◌ as str_append}
use visus.Prelude.{String, List, [], ◌∷◌, ◌++◌}
use visus.Result.{Result, Op, pure, modify, ◌>>◌}

-- `env.Env`: whether a store can be provided, and what its files hold.
pub record Env (B : Type 0) : Type 0 where
  pub provided : Result (Unit {0})
  pub read_file : String → Result B

-- What a command prints: a line of text, or yaml.
pub data Output (B : Type 0) : Type 0 where
  line : String → Output B
  yaml : B → Output B

pub record Terminal (S B : Type 0) : Type 0 where
  pub store : S
  pub out : List (Output B)

abbrev pub said : {B : Type 0} → String → String → String → Output B
said before name after = Output.line (str_append before (str_append name after))

module _ {S B : Type 0} where
  abbrev pub on_store : {A : Type 0} → Op S A → Op (Terminal S B) A
  on_store call t = let (r, s) = call t.store in (r, record t { store = s })

  abbrev pub print : Output B → Op (Terminal S B) (Unit {0})
  print o = modify (λ t. record t { out = t.out ++ o ∷ [] })

  unfoldable pub print_all : List String → Op (Terminal S B) (Unit {0})
  print_all [] = pure tt
  print_all (name ∷ names) = do print (said "" name "\n"); print_all names
