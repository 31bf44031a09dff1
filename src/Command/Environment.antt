-- ===== src/Command/Environment.antt =====
-- internal/cmd/env/env.go: where a command has its store and its files from. The store that `Testing`
-- makes, and the one over a new connection, are parameters.
use Prim.Native.String.{◌++◌ as str_append}
use visus.Prelude.{String, Bool, List, [], ◌∷◌, Option, none, some, if◌then◌else◌, ◌==◌, string_eq}
use visus.Result.{Result, ok, err, panic}

-- `alt` are the lines of the alternative reader, and why reading it failed in the end.
pub record Environment (Store Connection : Type 0) : Type 0 where
  pub alt : List String
  pub alt_failure : Option String
  pub ro_pool : Option Connection
  pub store : Option Store
  pub testing : Bool

module _ (Store Connection : Type 0) where
  abbrev Env : Type 0
  Env = Environment Store Connection

  abbrev kept : Env → (Connection → Store) → Result Connection → Result (Option Store) × Env
  kept e new_store (ok c) = (ok (some (new_store c)), record e { store = some (new_store c) })
  kept e new_store (err x) = (err x, e)
  kept e new_store panic = (panic, e)

  unfoldable pub provide_store :
      Result Connection → (Connection → Store) → Env → Result (Option Store) × Env
  provide_store connected new_store e =
      if e.testing then (ok e.store, e) else kept e new_store connected

  -- The field is assigned also where there is an error, and is nil then.
  abbrev connected_to : Env → Result Connection → Result (Option Connection) × Env
  connected_to e (ok c) = (ok (some c), record e { ro_pool = some c })
  connected_to e (err x) = (err x, record e { ro_pool = none })
  connected_to e panic = (panic, e)

  unfoldable pub provide_read_only_connection :
      Result Connection → Env → Result (Option Connection) × Env
  provide_read_only_connection connected e =
      if e.testing then (ok e.ro_pool, e) else connected_to e connected

  -- The methods that tests call; `e.alt` is only replaced in a test.
  abbrev pub inject_mock_connection : Option Connection → Env → Env
  inject_mock_connection pool e = record e { ro_pool = pool }

  abbrev pub inject_reader : List String → Env → Env
  inject_reader ls e = if e.testing then record e { alt = ls } else e

-- Each line with a newline after it.
unfoldable pub joined : List String → String
joined [] = ""
joined (l ∷ ls) = str_append l (str_append "\n" (joined ls))

abbrev read_alt : Option String → String → Result String
read_alt none text = ok text
read_alt (some x) text = err x

unfoldable pub read_file :
    {Store Connection : Type 0}
    → (String → Result String)
    → String
    → Environment Store Connection
    → Result String
unfolding joined
read_file os_read_file file e =
    if file == "-" then read_alt e.alt_failure (joined e.alt) else os_read_file file
