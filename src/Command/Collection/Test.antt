-- ===== src/Command/Collection/Test.antt =====
-- internal/cmd/collection/admin.go: the command that runs a collection and prints its metrics.
use Prim.Native.String.{◌++◌ as str_append}
use visus.Prelude.{ℕ, String, true, List, ◌++◌, [], ◌∷◌, Option, none, some, ℤ, ltb, if◌then◌else◌}
use visus.Result.{Result, Op, ok, lift, modify, raise, attempt, ◌>>=◌, ◌>>◌}
use visus.Store.Types.{Store, Collection}
use visus.External.Prometheus.{Prometheus}
use visus.External.Lru.{Lru}
use visus.External.Database.{Database}
use visus.Collector.Types.{Collector, CacheKey, CacheValue}
use visus.Collector.Values.{Value, Session}
use visus.Collector.Build.{from_collection}
use visus.Collector.Collect.{collect}
use visus.Command.Rounds.{rounds, Gatherer, shown, heading}

-- `wait` is `ctx.Err()` if the command is stopped while it waits for a round, and `time` what a round
-- prints of `time.Now()`.
pub record Parts : Type 1 where
  pub S : Type 0
  pub store : Store S
  pub prometheus : Prometheus
  pub lru : Lru CacheKey (CacheValue prometheus)
  pub database : Database (Value prometheus)
  pub gatherer : Gatherer prometheus.World
  pub wait : ℕ → Option String
  pub time : ℕ → String

pub record Trial (t : Parts) : Type 0 where
  pub store : t.S
  pub world : t.prometheus.World
  pub conn : t.database.Conn
  pub out : List String

-- What a round of the loop works on.
pub record Running (t : Parts) : Type 0 where
  pub session : Session t.prometheus t.lru t.database
  pub out : List String

module _ (t : Parts) where
  abbrev print : List String → Op (Running t) (Unit {0})
  print lines = modify (λ s. record s { out = s.out ++ lines })

  abbrev on_session : {A : Type 0} → Op (Session t.prometheus t.lru t.database) A → Op (Running t) A
  on_session m s = let (r, session) = m s.session in (r, record s { session = session })

  abbrev gather : Op (Running t) (List t.gatherer.Family)
  gather s =
      let (r, w) = t.gatherer.gather s.session.world in
      (r, record s { session = record s.session { world = w } })

  -- One round; what `Collect` returns is not looked at.
  unfoldable pub round : String → Collection → ℕ → Op (Running t) (Unit {0})
  unfolding shown
  round name coll i = do
    lift (if ltb 1 i then raise (t.wait i) tt else ok tt)
    print (heading (t.time i) coll.name ∷ [])
    _ ← attempt (on_session (collect t.prometheus t.lru t.database true))
    families ← gather
    print (shown t.gatherer.name t.gatherer.text name families)

  abbrev pub finished : {A : Type 0} → Trial t → Result A × Running t → Result A × Trial t
  finished s (r, e) = (r, record s { world = e.session.world; conn = e.session.conn; out = e.out })

  unfoldable pub run :
      String → Collection → ℤ → ℕ → Collector t.prometheus t.lru → Op (Trial t) (Option (Unit {0}))
  unfolding round
  run name coll count fuel collector s = finished s (
      rounds count (round name coll) fuel 1 (record {
        session = record { collector = collector; world = s.world; conn = s.conn };
        out = s.out;
      }))

  abbrev pub build : Collection → Op (Trial t) (Collector t.prometheus t.lru)
  build coll s =
      let (r, w) = from_collection t.prometheus t.lru coll s.world in (r, record s { world = w })

  abbrev pub tried : String → ℤ → ℕ → Option Collection → Op (Trial t) (Option (Unit {0}))
  tried name count fuel none s = (
    ok (some tt),
    record s { out = s.out ++ (str_append "Collection " (str_append name " not found\n") ∷ []) },
  )
  tried name count fuel (some coll) s =
      (do collector ← build coll; run name coll count fuel collector) s

  abbrev pub fetched : String → Op (Trial t) (Option Collection)
  fetched name s = let (r, st) = t.store.get_collection name s.store in (r, record s { store = st })

  -- `provided` and `connected` are what `ProvideStore` and `ProvideReadOnlyConnection` return; none
  -- says that the command is still running.
  unfoldable pub test_cmd :
      Result (Unit {0}) → Result (Unit {0}) → String → ℤ → ℕ → Op (Trial t) (Option (Unit {0}))
  unfolding run
  test_cmd provided connected name count fuel = do
    lift provided
    lift connected
    found ← fetched name
    tried name count fuel found
