-- ===== src/Process.antt =====
-- internal/cmd/server/server.go: the command that starts the servers, and what then happens to the
-- process. The servers are taken by the interface of internal/server/server.go.
mod Safety
mod Examples
use visus.Prelude.{
  ℕ, String, Bool, true, false, not, ◌&&◌, ◌||◌, ◌==◌, string_eq, if◌then◌else◌, ℤ, ◌≡◌, ◌≢◌,
  Option, none, some, List, [], ◌∷◌,
}
use visus.Result.{Result, Op, ok, err, panic, pure, lift, attempt, attempted, continue, ◌>>=◌, ◌>>◌}
use visus.Store.Types.{Store}

pub record Config : Type 0 where
  pub bind_cert : String
  pub bind_key : String
  pub insecure : Bool
  pub url : String

-- `server.Server`, over what its methods change.
pub record Server (W : Type 0) : Type 0 where
  pub start : Op W (Unit {0})
  pub refresh : Op W (Unit {0})

-- What the command calls: the two pools, the registry, the operating system, the scheduler, and the
-- constructors of the three servers. `generated` is a new UUID.
pub record Parts : Type 1 where
  pub W : Type 0
  pub store : Store W
  pub admin_conn : Op W (Unit {0})
  pub ro_conn : Op W (Unit {0})
  pub register_metrics : Op W (Unit {0})
  pub hostname : Result String
  pub generated : String
  pub pid : ℤ
  pub version : String
  pub every_minute : Op W (Unit {0})
  pub http_server : Op W (Server W)
  pub coll_server : Op W (Server W)
  pub scanner_server : Op W (Server W)
  pub refresh_ro_conn : Op W (Unit {0})
  pub refresh_admin_conn : Op W (Unit {0})

-- What is left when the servers run.
pub record Running (W : Type 0) : Type 0 where
  pub node_id : ℕ
  pub coll : Server W
  pub scanner : Server W
  pub http : Server W

-- A minute passes, SIGHUP comes, or the process is told to stop.
pub data Event : Type 0 where
  minute : ℕ → Event
  hangup stopping : Event

unfoldable pub check_config : Config → Result (Unit {0})
check_config c =
    if (c.bind_cert == "" || c.bind_key == "") && not c.insecure
    then err "--insecure must be specfied if certificates and private key are missing"
    else if c.url == ""
    then err "--url must be specified"
    else ok tt

module _ (t : Parts) where
  abbrev host : Result String → Result String
  host (ok name) = ok name
  host (err e) = ok t.generated
  host panic = panic

  unfoldable pub launch : {S : Type 0} → Op S (Server S) → Op S (Server S)
  launch new = do server ← new; server.start; pure server

  -- The command, up to the wait for its end.
  unfoldable pub start : Config → ℕ → Op t.W (Running t.W)
  unfolding check_config launch
  start c now = do
    lift (check_config c)
    t.admin_conn
    t.ro_conn
    t.register_metrics
    hostname ← lift (host t.hostname)
    node_id ← t.store.register_node hostname t.pid t.version now
    t.every_minute
    http ← launch t.http_server
    coll ← launch t.coll_server
    scanner ← launch t.scanner_server
    pure (record { node_id = node_id; coll = coll; scanner = scanner; http = http })

  -- An error is only logged.
  abbrev pub logged : Op t.W (Unit {0}) → Op t.W (Unit {0})
  logged m = do _ ← attempt m; pure tt

  unfoldable pub reload : Running t.W → Op t.W (Unit {0})
  reload r = do
    logged r.coll.refresh
    logged r.scanner.refresh
    logged r.http.refresh
    logged t.refresh_ro_conn
    logged t.refresh_admin_conn

  -- One event, and whether the process goes on.
  unfoldable pub handle : Running t.W → Event → Op t.W Bool
  unfolding reload
  handle r (Event.minute now) = do logged (t.store.heartbeat r.node_id now); pure true
  handle r Event.hangup = do reload r; pure true
  handle r Event.stopping = do logged (t.store.delete_node r.node_id); pure false

  unfoldable pub serve : Running t.W → List Event → Op t.W (Unit {0})
  unfolding handle
  serve r [] = pure tt
  serve r (event ∷ events) = do
    goes_on ← handle r event
    if goes_on then serve r events else pure tt
