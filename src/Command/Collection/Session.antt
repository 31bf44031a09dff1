-- ===== src/Command/Collection/Session.antt =====
-- collection/admin.go over the store in memory.
use visus.Prelude.{
  String, ◌≡◌, refl, false, none, some, List, [], ◌∷◌, ◌++◌, ◌==◌, string_eq, ==_refl,
}
use visus.Result.{Op, ok, ◌>>◌}
use visus.Dict.{Dict, insert, remove, lookup-insert, lookup-remove}
use visus.Store.Types.{Collection}
use visus.Store.Memory.{Memory, memory_store, put_collection, get_collection, delete_collection}
use visus.External.Yaml.{Yaml}
use visus.Command.Collection.{Config, marshal, unmarshal}
use visus.Command.Terminal.{Env, Output, yaml, Terminal, said}
use visus.Command.Collection.Admin.{put_cmd, get_cmd, delete_cmd}

-- The store in memory with other collections.
abbrev holding : Memory → Dict String Collection → Memory
holding m d = record m { collections = some d }

module _ (m : Memory) (up : m.error ≡ none) where
  puts :
      (c : Collection) (d : Dict String Collection)
      → put_collection c (holding m d) ≡ (ok tt, holding m (insert c.name c d))
  unfolding put_collection
  puts c d = rw up refl

  gets_put :
      (c : Collection) (d : Dict String Collection)
      → get_collection c.name (holding m (insert c.name c d))
        ≡ (ok (some c), holding m (insert c.name c d))
  unfolding get_collection
  gets_put c d = rw (up, lookup-insert c.name c.name c d, ==_refl c.name) refl

  deletes :
      (n : String) (d : Dict String Collection)
      → delete_collection n (holding m d) ≡ (ok tt, holding m (remove n d))
  unfolding delete_collection
  deletes n d = rw up refl

  gets_deleted :
      (n : String) (d : Dict String Collection)
      → get_collection n (holding m (remove n d)) ≡ (ok none, holding m (remove n d))
  unfolding get_collection
  gets_deleted n d = rw (up, lookup-remove n n d, ==_refl n) refl

module _ (y : Yaml Config) (env : Env y.Bytes) where
  abbrev pub terminal :
      Memory → Dict String Collection → List (Output y.Bytes) → Terminal Memory y.Bytes
  terminal m d out = record { store = holding m d; out = out }

  abbrev pub reply : String → String → Output y.Bytes
  reply name after = said "Collection " name after

  module _ (m : Memory) (up : m.error ≡ none) (provided : env.provided ≡ ok tt) where
    put_cmd_lem :
        (d : Dict String Collection) (out : List (Output y.Bytes)) (file : String) (b : y.Bytes)
        (c : Collection)
        → (file == "") ≡ false
        → env.read_file file ≡ ok b
        → unmarshal y b ≡ ok c
        → put_cmd memory_store y env file (terminal m d out)
          ≡ (ok tt, terminal m (insert c.name c d) (out ++ reply c.name " inserted.\n" ∷ []))
    unfolding put_cmd
    put_cmd_lem d out file b c named read parsed =
        rw (named, provided, read, parsed, puts m up c d) refl

    get_put_lem :
        (d : Dict String Collection) (out : List (Output y.Bytes)) (b : y.Bytes) (c : Collection)
        → marshal y c ≡ ok b
        → get_cmd memory_store y env c.name (terminal m (insert c.name c d) out)
          ≡ (ok tt, terminal m (insert c.name c d) (out ++ yaml b ∷ []))
    unfolding get_cmd
    get_put_lem d out b c written = rw (provided, gets_put m up c d, written) refl

    delete_cmd_lem :
        (d : Dict String Collection) (out : List (Output y.Bytes)) (name : String)
        → delete_cmd memory_store y env name (terminal m d out)
          ≡ (ok tt, terminal m (remove name d) (out ++ reply name " deleted.\n" ∷ []))
    unfolding delete_cmd
    delete_cmd_lem d out name = rw (provided, deletes m up name d) refl

    get_deleted_lem :
        (d : Dict String Collection) (out : List (Output y.Bytes)) (name : String)
        → get_cmd memory_store y env name (terminal m (remove name d) out)
          ≡ (ok tt, terminal m (remove name d) (out ++ reply name " not found\n" ∷ []))
    unfolding get_cmd
    get_deleted_lem d out name = rw (provided, gets_deleted m up name d) refl

  -- The four commands, one after the other.
  abbrev pub put_get_delete_get : String → String → Op (Terminal Memory y.Bytes) (Unit {0})
  put_get_delete_get file name = do
    put_cmd memory_store y env file
    get_cmd memory_store y env name
    delete_cmd memory_store y env name
    get_cmd memory_store y env name

  -- Over the store in memory, after `Init` and with no error injected, `put` of a file that holds the
  -- yaml of a collection, `get`, `delete` and `get` again of its name succeed: they say that it was
  -- inserted, print its yaml, say that it was deleted, and that it is not found; and the collections
  -- that the store then holds are those it had, with this one put and removed.
  pub put_get_delete_get_lem :
      (m : Memory) (d : Dict String Collection) (out : List (Output y.Bytes)) (file : String)
      (b b' : y.Bytes) (c : Collection)
      → m.error ≡ none
      → (file == "") ≡ false
      → env.provided ≡ ok tt
      → env.read_file file ≡ ok b
      → unmarshal y b ≡ ok c
      → marshal y c ≡ ok b'
      → put_get_delete_get file c.name (terminal m d out) ≡ (
        ok tt,
        terminal m (remove c.name (insert c.name c d)) (
            (((out ++ reply c.name " inserted.\n" ∷ []) ++ yaml b' ∷ [])
              ++ reply c.name " deleted.\n" ∷ [])
            ++ reply c.name " not found\n" ∷ []),
      )
  put_get_delete_get_lem m d out file b b' c up named provided read parsed written =
      let d' = insert c.name c d in
      let out1 = out ++ reply c.name " inserted.\n" ∷ [] in
      let out2 = out1 ++ yaml b' ∷ [] in
      rw
        (
          put_cmd_lem m up provided d out file b c named read parsed,
          get_put_lem m up provided d out1 b' c written,
          delete_cmd_lem m up provided d' out2 c.name,
          get_deleted_lem m up provided d' (out2 ++ reply c.name " deleted.\n" ∷ []) c.name,
        )
        refl
