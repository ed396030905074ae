-- ===== src/Models/Database.antt =====
-- How the program reaches its database: single statements, each of which may fail and then has
-- changed nothing, and functions that return early on an error. What a function has written before
-- it returns an error stays written.
pub mod Keeps
pub mod Quiet
use billtracker_plugin.Base.{Bool, true, false, List, [], ◌∷◌}
use billtracker_plugin.Errors.{Error, db_failure, Result, ok, err}
use billtracker_plugin.Models.Rows.{Tables}

-- `outages` says of each statement to come whether the database fails it; past its end none does.
pub record Db : Type 0 where
  pub tables : Tables
  pub outages : List Bool

abbrev pub Exec : Type 0 → Type 0
Exec A = Db → Result A × Db

abbrev pub Query : Type 0 → Type 0
Query A = Tables → Result A × Tables

-- The numbers that a SERIAL column has handed out are not taken back. The one transaction of the
-- program inserts into bt_simplefin_connection only.
abbrev pub rolled_back : Tables → Tables → Tables
rolled_back old new = record old { next_simplefin = new.next_simplefin }

module _ {A : Type 0} where
  abbrev on_tables : Query A → List Bool → Tables → Result A × Db
  on_tables q rest t = let (r, t') = q t in (r, record { tables = t'; outages = rest })

  abbrev with_outages : List Bool → Query A → Tables → Result A × Db
  with_outages [] q t = on_tables q [] t
  with_outages (false ∷ rest) q t = on_tables q rest t
  with_outages (true ∷ rest) q t = (err db_failure, record { tables = t; outages = rest })

  -- One statement sent to the database.
  unfoldable pub statement : Query A → Exec A
  statement q db = with_outages db.outages q db.tables

  unfoldable pub pure : A → Exec A
  pure a db = (ok a, db)

  unfoldable pub fail : Error → Exec A
  fail e db = (err e, db)

  -- A value that was computed without the database.
  unfoldable pub lift : Result A → Exec A
  lift r db = (r, db)

  abbrev end_transaction : Tables → Result A → Db → Result A × Db
  end_transaction old (ok a) db = (ok a, db)
  end_transaction old (err e) db = (err e, record db { tables = rolled_back old db.tables })

  -- `BeginTx`, with the deferred `Rollback` where the body fails.
  unfoldable pub transaction : Exec A → Exec A
  transaction m db = let (r, db') = m db in end_transaction db.tables r db'

module _ {A B : Type 0} where
  abbrev pub resume : Result A → (Error → Exec B) → (A → Exec B) → Exec B
  resume (ok a) handler f db = f a db
  resume (err e) handler f db = handler e db

  -- `if err != nil { …handler }`, and the code behind it.
  unfoldable pub attempt : Exec A → (Error → Exec B) → (A → Exec B) → Exec B
  attempt m handler f db = let (r, db') = m db in resume r handler f db'

  infixl 5 ◌>>=◌ ◌>>◌
  -- `if err != nil { return err }`.
  unfoldable pub ◌>>=◌ : Exec A → (A → Exec B) → Exec B
  unfolding attempt pure fail lift
  m >>= f = attempt m fail f

  abbrev pub ◌>>◌ : Exec A → Exec B → Exec B
  m >> n = m >>= λ _. n

  -- `_ = m`, and what follows it.
  unfoldable pub ignoring : Exec A → Exec B → Exec B
  unfolding attempt pure fail lift
  ignoring m n = attempt m (λ _. n) (λ _. n)
