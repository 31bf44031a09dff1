-- ===== src/Command/Histogram/Admin.antt =====
-- internal/cmd/histogram/admin.go: the commands that put, get, list and delete histograms, over the
-- store that `ProvideStore` returns and the files that `ReadFile` reads.
use visus.Prelude.{String, none, some, ◌==◌, string_eq, if◌then◌else◌, sort, string_le}
use visus.Result.{Op, err, pure, lift, ◌>>=◌, ◌>>◌}
use visus.Store.Types.{Store}
use visus.External.Yaml.{Yaml}
use visus.Command.Terminal.{Env, yaml, Terminal, said, on_store, print, print_all}
use visus.Command.Histogram.{Config, marshal, unmarshal}

module _ {S : Type 0} (store : Store S) (y : Yaml Config) (env : Env y.Bytes) where
  abbrev pub Run : Type 0 → Type 0
  Run A = Op (Terminal S y.Bytes) A

  unfoldable pub delete_cmd : String → Run (Unit {0})
  delete_cmd name = do
    lift env.provided
    on_store (store.delete_histogram name)
    print (said "Histogram " name " deleted.\n")

  unfoldable pub get_cmd : String → Run (Unit {0})
  get_cmd name = do
    lift env.provided
    found ← on_store (store.get_histogram name)
    elim found [
      | none ↦ print (said "Histogram " name " not found\n")
      | some c ↦ do res ← lift (marshal y c); print (yaml res)
    ]

  unfoldable pub list_cmd : Run (Unit {0})
  unfolding print_all
  list_cmd = do
    lift env.provided
    names ← on_store store.get_histogram_names
    print_all (sort string_le names)

  -- `file` is the flag `--yaml`, which is "" where it is not given.
  unfoldable pub put_cmd : String → Run (Unit {0})
  put_cmd file = do
    if file == "" then lift (err "yaml configuration required") else pure tt
    lift env.provided
    b ← lift (env.read_file file)
    c ← lift (unmarshal y b)
    on_store (store.put_histogram c)
    print (said "Histogram " c.name " inserted.\n")
