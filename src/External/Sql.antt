-- ===== src/External/Sql.antt =====
-- github.com/jackc/pgx/v5 over CockroachDB, as internal/store uses it: a connection, its tables `T`
-- and a transaction on them. A statement is given as what it does to the tables, and a select as
-- what it finds in them; nobody else writes between the calls.
use visus.Prelude.{ℕ, ◌≡◌, ◌⊎◌, String, List, [], ◌++◌, map, Perm, Option, none}
use visus.Result.{Result, Op, ok}

-- What `current_timestamp()` and `unique_rowid()` give to one statement.
pub record Moment : Type 0 where
  pub now : ℕ
  pub row_id : ℕ

-- What a loop over `rows.Next()` meets: what `Scan` gives for each row, and `rows.Err()` after it.
pub record Fetched (A : Type 0) : Type 0 where
  pub rows : List (Result A)
  pub failure : Option String

pub record Connection (T : Type 0) : Type 1 where
  pub Conn : Type 0
  -- What is committed, and what the transaction in progress sees.
  pub tables : Conn → T
  pub opened : Conn → T
  pub begin : Op Conn (Unit {0})
  pub exec_in : (Moment → T → Result T) → Op Conn (Unit {0})
  pub commit : Op Conn (Unit {0})
  pub rollback : Conn → Conn
  -- Outside a transaction: `Exec`, `Query` without and with an order, `QueryRow` of a select and of
  -- an insert that returns something. `none` is `ErrNoRows`.
  pub exec : (Moment → T → Result T) → Op Conn (Unit {0})
  pub query : {A : Type 0} → (Moment → T → List A) → Op Conn (Fetched A)
  pub query_ordered : {A : Type 0} → (Moment → T → List A) → Op Conn (Fetched A)
  pub query_row : {A : Type 0} → (Moment → T → Option A) → Op Conn (Option A)
  pub exec_row : {A : Type 0} → (Moment → T → Result (T × A)) → Op Conn A

-- A call may fail. A write that fails may have been done all the same, if its answer was lost.
pub record IsTransactional {T : Type 0} (d : Connection T) : Type 1 where
  pub begin_keeps : (c : d.Conn) → d.tables (d.begin c).1 ≡ d.tables c
  pub begin_sees : (c : d.Conn) → (d.begin c).0 ≡ ok tt → d.opened (d.begin c).1 ≡ d.tables c
  pub exec_in_keeps :
      (f : Moment → T → Result T) (c : d.Conn) → d.tables (d.exec_in f c).1 ≡ d.tables c
  pub exec_in_done :
      (f : Moment → T → Result T) (c : d.Conn)
      → (d.exec_in f c).0 ≡ ok tt
      → (m : Moment) × (f m (d.opened c) ≡ ok (d.opened (d.exec_in f c).1))
  pub commit_either :
      (c : d.Conn) → (d.tables (d.commit c).1 ≡ d.tables c) ⊎ (d.tables (d.commit c).1 ≡ d.opened c)
  pub commit_done : (c : d.Conn) → (d.commit c).0 ≡ ok tt → d.tables (d.commit c).1 ≡ d.opened c
  pub rollback_keeps : (c : d.Conn) → d.tables (d.rollback c) ≡ d.tables c
  pub exec_either :
      (f : Moment → T → Result T) (c : d.Conn)
      → (d.tables (d.exec f c).1 ≡ d.tables c)
        ⊎ ((m : Moment) × (f m (d.tables c) ≡ ok (d.tables (d.exec f c).1)))
  pub exec_done :
      (f : Moment → T → Result T) (c : d.Conn)
      → (d.exec f c).0 ≡ ok tt
      → (m : Moment) × (f m (d.tables c) ≡ ok (d.tables (d.exec f c).1))
  pub exec_row_either :
      {A : Type 0} (f : Moment → T → Result (T × A)) (c : d.Conn)
      → (d.tables (d.exec_row f c).1 ≡ d.tables c)
        ⊎ ((m : Moment) × (a : A) × (f m (d.tables c) ≡ ok (d.tables (d.exec_row f c).1, a)))
  pub exec_row_done :
      {A : Type 0} (f : Moment → T → Result (T × A)) (c : d.Conn) (a : A)
      → (d.exec_row f c).0 ≡ ok a
      → (m : Moment) × (f m (d.tables c) ≡ ok (d.tables (d.exec_row f c).1, a))
  -- Rows come in any order, and some are missing if `rows.Err()` is not nil.
  pub query_keeps :
      {A : Type 0} (f : Moment → T → List A) (c : d.Conn) → d.tables (d.query f c).1 ≡ d.tables c
  pub query_finds :
      {A : Type 0} (f : Moment → T → List A) (c : d.Conn) (r : Fetched A) (xs : List A)
      → (d.query f c).0 ≡ ok r
      → r.rows ≡ map ok xs
      → (m : Moment) × (rest : List A) × Perm (xs ++ rest) (f m (d.tables c))
        × (r.failure ≡ none → rest ≡ [])
  pub ordered_keeps :
      {A : Type 0} (f : Moment → T → List A) (c : d.Conn)
      → d.tables (d.query_ordered f c).1 ≡ d.tables c
  pub ordered_finds :
      {A : Type 0} (f : Moment → T → List A) (c : d.Conn) (r : Fetched A) (xs : List A)
      → (d.query_ordered f c).0 ≡ ok r
      → r.rows ≡ map ok xs
      → r.failure ≡ none
      → (m : Moment) × (xs ≡ f m (d.tables c))
  pub row_keeps :
      {A : Type 0} (f : Moment → T → Option A) (c : d.Conn)
      → d.tables (d.query_row f c).1 ≡ d.tables c
  pub row_finds :
      {A : Type 0} (f : Moment → T → Option A) (c : d.Conn) (a : Option A)
      → (d.query_row f c).0 ≡ ok a
      → (m : Moment) × (a ≡ f m (d.tables c))
