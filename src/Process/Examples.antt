-- ===== src/Process/Examples.antt =====
-- server.go: a process over the store in memory.
use visus.Prelude.{◌≡◌, ◌≢◌, refl, true, [], ◌∷◌, pos}
use visus.Result.{ok, err, pure}
use visus.Dict.{lookup, insert, remove}
use visus.Store.Memory.{Memory, memory_store, register_node, heartbeat, delete_node}
use visus.Store.Memory.Sample.{filled}
use visus.Process.Safety.{serve-ne-err}
use visus.Process.{Parts, Config, Server, Running, start, serve, Event, launch}

abbrev quiet : Server Memory
quiet = record { start = pure tt; refresh = λ m. (err "down", m) }

abbrev parts : Parts
parts = record {
  W = Memory;
  store = memory_store;
  admin_conn = pure tt;
  ro_conn = pure tt;
  register_metrics = pure tt;
  hostname = err "no name";
  generated = "4f1c";
  pid = pos 7;
  version = "v2";
  every_minute = pure tt;
  http_server = pure quiet;
  coll_server = pure quiet;
  scanner_server = pure quiet;
  refresh_ro_conn = pure tt;
  refresh_admin_conn = pure tt;
}

abbrev config : Config
config = record { bind_cert = ""; bind_key = ""; insecure = true; url = "postgresql://root@db" }

abbrev running : Running Memory
running = record { node_id = 3; coll = quiet; scanner = quiet; http = quiet }

-- The node is registered under the generated name, and its id is kept.
starts_up : (start parts config 130 filled).0 ≡ ok running
unfolding start register_node launch
starts_up = refl

-- Heartbeats and reloads that fail do not stop it; when it is told to stop, its node is gone.
stops :
    serve parts running
      (Event.minute 140 ∷ Event.hangup ∷ Event.stopping ∷ Event.minute 150 ∷ [])
      (start parts config 130 filled).1
    ≡ (ok tt, record filled { next_node_id = 3 })
unfolding serve start register_node heartbeat delete_node launch insert lookup remove
stops = refl

serve-ne-err_example :
    (serve parts running (Event.hangup ∷ Event.minute 140 ∷ []) filled).0 ≢ err "down"
serve-ne-err_example =
    serve-ne-err parts running (Event.hangup ∷ Event.minute 140 ∷ []) filled "down"
