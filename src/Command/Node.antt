-- ===== src/Command/Node.antt =====
-- internal/cmd/node/admin.go and internal/cmd/initialize/admin.go. The layout of the table is a
-- parameter, and so is a new connection.
use visus.Prelude.{String, List}
use visus.Result.{Result, Op, ok, err, panic, lift, ◌>>=◌, ◌>>◌}
use visus.Store.Types.{Store, NodeInfo}
use visus.Command.Terminal.{Env, line, Terminal, said, on_store, print}

module _ {S B : Type 0} where
  unfoldable pub list_nodes_cmd :
      Store S → Env B → (List NodeInfo → String) → Op (Terminal S B) (Unit {0})
  list_nodes_cmd store env table = do
    lift env.provided
    nodes ← on_store store.get_nodes
    print (line (table nodes))

  abbrev reported : String → Result (Unit {0}) → Op (Terminal S B) (Unit {0})
  reported url (ok u) = print (said "Database initialized at " url "\n")
  reported url (err e) = do print (said "Error initializing database at " url ".\n"); lift (err e)
  reported url panic = lift panic

  -- `init`, over what `database.New` comes to.
  unfoldable pub init_cmd :
      Store S → (String → Result (Unit {0})) → String → Op (Terminal S B) (Unit {0})
  init_cmd store connect url = do
    lift (connect url)
    λ t. (let (r, s) = store.init t.store in reported url r (record t { store = s }))
