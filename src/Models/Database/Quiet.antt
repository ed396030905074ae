-- ===== src/Models/Database/Quiet.antt =====
-- Running functions over the database step by step, and over one that fails no statement.
use billtracker_plugin.Base.{◌≡◌, refl, ap, []}
use billtracker_plugin.Errors.{Error, Result, ok, err}
use billtracker_plugin.Models.Rows.{Tables}
use billtracker_plugin.Models.Database.{
  Db, Exec, Query, statement, resume, attempt, ignoring, ◌>>=◌, fail,
}

-- A database that fails no statement to come.
abbrev pub quiet : Tables → Db
quiet t = record { tables = t; outages = [] }

pub statement-quiet :
    {A : Type 0} (q : Query A) (t : Tables) → statement q (quiet t) ≡ ((q t).0, quiet (q t).1)
unfolding statement
statement-quiet q t = refl

module _ {A B : Type 0} (m : Exec A) where
  pub attempt_ok :
      (handler : Error → Exec B) (f : A → Exec B) (db db' : Db) (a : A)
      → m db ≡ (ok a, db')
      → attempt m handler f db ≡ f a db'
  unfolding attempt
  attempt_ok handler f db db' a e = ap (λ (x : Result A × Db). resume x.0 handler f x.1) e

  pub attempt_err :
      (handler : Error → Exec B) (f : A → Exec B) (db db' : Db) (x : Error)
      → m db ≡ (err x, db')
      → attempt m handler f db ≡ handler x db'
  unfolding attempt
  attempt_err handler f db db' x e = ap (λ (x : Result A × Db). resume x.0 handler f x.1) e

  pub bind_ok : (f : A → Exec B) (db db' : Db) (a : A) → m db ≡ (ok a, db') → (m >>= f) db ≡ f a db'
  unfolding ◌>>=◌
  bind_ok f db db' a e = attempt_ok fail f db db' a e

  resume_both : (r : Result A) (n : Exec B) (db : Db) → resume r (λ _. n) (λ _. n) db ≡ n db
  resume_both (ok a) n db = refl
  resume_both (err x) n db = refl

  -- What follows an ignored call runs in the state that the call left.
  pub ignoring_runs : (n : Exec B) (db : Db) → ignoring m n db ≡ n (m db).1
  unfolding ignoring attempt
  ignoring_runs n db = let (r, db') = m db in resume_both r n db'
