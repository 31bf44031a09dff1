-- ===== src/External/Database.antt =====
-- github.com/jackc/pgx/v5: a connection and a transaction on it. `Conn` is the state of the
-- connection and of the database. Rows are read to the end before anything else is done on it.
use visus.Prelude.{String, List, Option, ℤ}
use visus.Result.{Result, Op}

-- `fields` are the names of the columns. A row is what `Values` returns for it; `failure` is what
-- `Err` returns at the end.
pub record Rows (V : Type 0) : Type 0 where
  pub fields : List String
  pub rows : List (Result (List V))
  pub failure : Option String

pub record Database (V : Type 0) : Type 1 where
  pub Conn : Type 0
  pub query : String → Op Conn (Rows V)
  pub begin : Op Conn (Unit {0})
  -- `Exec` with an argument that is a text, and `Query` with one that is an int.
  pub exec : String → String → Op Conn (Unit {0})
  pub query_with : String → ℤ → Op Conn (Rows V)
  pub commit : Op Conn (Unit {0})
  pub rollback : Conn → Conn
