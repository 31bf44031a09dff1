-- ===== src/Command/Scan/Test.antt =====
-- internal/cmd/scan/admin.go: the command that runs a scan and prints its metrics.
use Prim.Native.String.{◌++◌ as str_append}
use visus.Prelude.{ℕ, String, List, ◌++◌, [], ◌∷◌, Option, none, some, ℤ}
use visus.Result.{Result, Op, ok, pure, lift, modify, raise, ◌>>=◌, ◌>>◌}
use visus.Store.Types.{Store, Scan}
use visus.External.Prometheus.{Prometheus}
use visus.Scanner.Crdb.{Regexp}
use visus.Scanner.Auth.{AuthFields}
use visus.Scanner.Build.{Scanner, from_config}
use visus.Scanner.Lines.{parse_lines}
use visus.Command.Rounds.{rounds, Gatherer, shown, heading}

-- `wait` is `ctx.Err()` if the command is stopped while it waits for a round, and `time` what a round
-- prints of `time.Now()`. The goroutine of the scanner reads `lines i` before round `i` prints, and
-- `stop` is what `Stop` returns.
pub record Parts : Type 1 where
  pub S : Type 0
  pub store : Store S
  pub prometheus : Prometheus
  pub compile : String → Result Regexp
  pub unmarshal : String → Result AuthFields
  pub error_counts : prometheus.CounterVec
  pub gatherer : Gatherer prometheus.World
  pub wait : ℕ → Option String
  pub time : ℕ → String
  pub lines : ℕ → List String
  pub stop : Option String

pub record Trial (t : Parts) : Type 0 where
  pub store : t.S
  pub world : t.prometheus.World
  pub out : List String

module _ (t : Parts) where
  abbrev print : List String → Op (Trial t) (Unit {0})
  print lines = modify (λ s. record s { out = s.out ++ lines })

  abbrev on_world : {A : Type 0} → Op t.prometheus.World A → Op (Trial t) A
  on_world m s = let (r, w) = m s.world in (r, record s { world = w })

  unfoldable pub round : Scan → Scanner t.prometheus → ℕ → Op (Trial t) (Unit {0})
  unfolding shown
  round scan scanner i = do
    lift (raise (t.wait i) tt)
    on_world (parse_lines t.prometheus t.unmarshal t.error_counts scan.path scanner (t.lines i))
    families ← on_world t.gatherer.gather
    print (heading (t.time i) scan.name ∷ [])
    print (shown t.gatherer.name t.gatherer.text scan.name families)

  abbrev pub build : Scan → Op (Trial t) (Scanner t.prometheus)
  build scan s =
      let (r, b) =
        from_config t.prometheus t.compile scan (record { metrics = []; world = s.world }) in
      (r, record s { world = b.world })

  -- The end of the command, once the loop has ended.
  abbrev pub stopped : Option (Unit {0}) → Result (Option (Unit {0}))
  stopped none = ok none
  stopped (some u) = raise t.stop (some u)

  abbrev pub tried : String → ℤ → ℕ → Option Scan → Op (Trial t) (Option (Unit {0}))
  tried name count fuel none = do
    print (str_append "Scan " (str_append name " not found\n") ∷ [])
    pure (some tt)
  tried name count fuel (some scan) = do
    scanner ← build scan
    ended ← rounds count (round scan scanner) fuel 1
    lift (stopped ended)

  abbrev pub fetched : String → Op (Trial t) (Option Scan)
  fetched name s = let (r, st) = t.store.get_scan name s.store in (r, record s { store = st })

  -- `provided` is what `ProvideStore` returns; none says that the command is still running.
  unfoldable pub test_cmd : Result (Unit {0}) → String → ℤ → ℕ → Op (Trial t) (Option (Unit {0}))
  unfolding round
  test_cmd provided name count fuel = do
    lift provided
    found ← fetched name
    tried name count fuel found
