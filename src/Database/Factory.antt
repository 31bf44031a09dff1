-- ===== src/Database/Factory.antt =====
-- internal/database/factory.go and pool.go: the loop that opens a pool, with its pauses, and the swap
-- of the pool. pgxpool, the clock and the context are parameters. The loop runs on fuel, since it
-- tries as long as the database is away.
use visus.Prelude.{
  ℕ, zero, suc, ◌+◌, String, Bool, true, false, List, [], ◌∷◌, ◌++◌, Option, none, some,
  if◌then◌else◌, ltb,
}
use visus.Result.{Result, Op, ok, err, panic, raise, pure, modify, ◌>>=◌, ◌>>◌}

-- What is set of a pool: its URL, and which settings `AfterConnect` makes.
pub record Settings : Type 0 where
  pub url : String
  pub read_only : Bool
  pub allow_unsafe_internals : Bool

pub record Pgxpool : Type 1 where
  pub World : Type 0
  pub Handle : Type 0
  pub new_with_config : Settings → Op World Handle
  pub ping : Handle → Op World (Unit {0})
  pub close : Handle → World → World
  -- A pause of so many seconds, and why the context was cancelled meanwhile.
  pub sleep : ℕ → World → Option String × World

abbrev statement_if : {C : Type 0} → Bool → Op C (Unit {0}) → Op C (Unit {0})
statement_if true m = m
statement_if false m = pure tt

-- `AfterConnect`, over what executes a statement on the new connection.
unfoldable pub after_connect :
    {C : Type 0} → (String → Op C (Unit {0})) → Settings → Op C (Unit {0})
after_connect exec c = do
  statement_if c.read_only (exec "set session default_transaction_use_follower_reads = true;")
  statement_if c.allow_unsafe_internals (exec "set allow_unsafe_internals = true;")

-- The pause after the next failure.
abbrev pub next_pause : ℕ → ℕ
next_pause t = if ltb t 60 then t + 5 else t

-- Opening pools, with the pauses that were announced in the log.
pub record Opening (p : Pgxpool) : Type 0 where
  pub world : p.World
  pub pauses : List ℕ

-- A `Pool` whose pool was opened.
pub record Pool (p : Pgxpool) : Type 0 where
  pub settings : Settings
  pub pool : p.Handle

module _ (p : Pgxpool) where
  abbrev pinged : p.Handle → Result (Unit {0}) × p.World → Result p.Handle × p.World
  pinged h (ok u, w) = (ok h, w)
  pinged h (err e, w) = (err e, p.close h w)
  pinged h (panic, w) = (panic, w)

  unfoldable pub connect_and_ping : Settings → Op p.World p.Handle
  connect_and_ping c = do h ← p.new_with_config c; λ w. pinged h (p.ping h w)

  abbrev on_world : {A : Type 0} → Op p.World A → Op (Opening p) A
  on_world m s = let (r, w) = m s.world in (r, record s { world = w })

  abbrev announce : ℕ → Op (Opening p) (Unit {0})
  announce t = modify (λ s. record s { pauses = s.pauses ++ (t ∷ []) })

  abbrev pause : ℕ → Op (Opening p) (Unit {0})
  pause t s = let (e, w) = p.sleep t s.world in (raise e tt, record s { world = w })

  -- One round of the loop, by how the attempt went: the pool, or none after a failure and its pause.
  abbrev pub tried :
      ℕ → Opening p → Result p.Handle × p.World → Result (Option p.Handle) × Opening p
  tried t s (ok h, w) = (ok (some h), record s { world = w })
  tried t s (err e, w) = (do announce t; pause t; pure none) (record s { world = w })
  tried t s (panic, w) = (panic, record s { world = w })

  abbrev pub round : Settings → ℕ → Op (Opening p) (Option p.Handle)
  round c t s = tried t s (connect_and_ping c s.world)

  unfoldable pub connect : Settings → ℕ → ℕ → Op (Opening p) (Option p.Handle)
  connect c zero t = pure none
  connect c (suc fuel) t = do
    h ← round c t
    elim h [ some h ↦ pure (some h) | none ↦ connect c fuel (next_pause t) ]

  unfoldable pub pgx_pool : Settings → ℕ → Op (Opening p) (Option p.Handle)
  unfolding connect
  pgx_pool c fuel = connect c fuel 5

  abbrev handed : Settings → Option p.Handle → Option (Pool p)
  handed c none = none
  handed c (some h) = some (record { settings = c; pool = h })

  -- `New` and `ReadOnly`; none while the loop is still trying.
  unfoldable pub new : Settings → ℕ → Op (Opening p) (Option (Pool p))
  new c fuel = do h ← pgx_pool c fuel; pure (handed c h)

  abbrev swapped : Pool p → Option p.Handle → Op (Opening p) (Option (Pool p))
  swapped pool none s = (ok none, s)
  swapped pool (some h) s =
      (ok (some (record pool { pool = h })), record s { world = p.close pool.pool s.world })

  -- `Refresh`: the old pool is in use, and stays open, until there is a new one.
  unfoldable pub refresh : Pool p → ℕ → Op (Opening p) (Option (Pool p))
  refresh pool fuel = do h ← pgx_pool pool.settings fuel; swapped pool h
