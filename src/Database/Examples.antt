-- ===== src/Database/Examples.antt =====
-- factory.go over a database that is away for some attempts.
use visus.Prelude.{ℕ, zero, suc, ◌≡◌, refl, true, false, List, [], ◌∷◌, ◌++◌, none, some}
use visus.Result.{Result, ok, err}
use visus.Database.Factory.{
  Pgxpool, Settings, pgx_pool, connect, connect_and_ping, new, refresh, after_connect,
}
use visus.Database.Pauses.{Adds, pgx_pool-Adds}

abbrev answer : ℕ → Result (Unit {0}) × ℕ
answer zero = (ok tt, 0)
answer (suc n) = (err "connection refused", n)

-- The state is the number of pings that will still fail.
abbrev away : Pgxpool
away = record {
  World = ℕ;
  Handle = Unit {0};
  new_with_config = λ c w. (ok tt, w);
  ping = λ h w. answer w;
  close = λ h w. w;
  sleep = λ t w. (none, w);
}

abbrev settings : Settings
settings = record { url = "postgresql://"; read_only = true; allow_unsafe_internals = false }

three_failures :
    pgx_pool away settings 9 (record { world = 3; pauses = [] })
    ≡ (ok (some tt), record { world = 0; pauses = 5 ∷ 10 ∷ 15 ∷ [] })
unfolding pgx_pool connect connect_and_ping
three_failures = refl

pgx_pool-Adds_example :
    Adds away 20
      (record { world = 14; pauses = [] })
      (pgx_pool away settings 20 (record { world = 14; pauses = [] })).1
pgx_pool-Adds_example = pgx_pool-Adds away settings 20 (record { world = 14; pauses = [] })

session :
    after_connect (λ stmt (log : List _). (ok tt, log ++ (stmt ∷ []))) settings []
    ≡ (ok tt, "set session default_transaction_use_follower_reads = true;" ∷ [])
unfolding after_connect
session = refl

new_pool :
    (new away settings 2 (record { world = 1; pauses = [] })).0
    ≡ ok (some (record { settings = settings; pool = tt }))
unfolding new pgx_pool connect connect_and_ping
new_pool = refl

refreshed_pool :
    (refresh away
      (record { settings = settings; pool = tt })
      2
      (record { world = 1; pauses = [] })).0
    ≡ ok (some (record { settings = settings; pool = tt }))
unfolding refresh pgx_pool connect connect_and_ping
refreshed_pool = refl
