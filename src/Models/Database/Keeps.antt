-- ===== src/Models/Database/Keeps.antt =====
-- Invariants of the tables, one rule for each way to build a function over the database.
use billtracker_plugin.Base.{List, Bool, true, false, [], ◌∷◌, ◌≡◌, refl, if◌then◌else◌}
use billtracker_plugin.Errors.{Error, Result, ok, err}
use billtracker_plugin.Models.Rows.{Tables}
use billtracker_plugin.Models.Database.{
  Db, with_outages, resume, rolled_back, end_transaction, Exec, Query, statement, pure, fail, lift,
  attempt, transaction, ignoring, ◌>>=◌,
}

-- Whatever the database fails, `m` leaves tables that satisfy `P` where it found such.
pub record Keeps {A : Type 0} (P : Tables → Type 0) (m : Exec A) : Type 0 where
  pub at : (db : Db) → P db.tables → P (m db).1.tables

at_outages :
    {A : Type 0} (P : Tables → Type 0) (q : Query A) (outages : List Bool) (t : Tables)
    → ((t : Tables) → P t → P (q t).1)
    → P t
    → P (with_outages outages q t).1.tables
at_outages P q [] t k h = k t h
at_outages P q (false ∷ rest) t k h = k t h
at_outages P q (true ∷ rest) t k h = h

module _ {A : Type 0} {P : Tables → Type 0} where
  pub Keeps-statement : (q : Query A) → ((t : Tables) → P t → P (q t).1) → Keeps P (statement q)
  unfolding statement
  Keeps-statement q k = record { at = λ db h. at_outages P q db.outages db.tables k h }

  pub Keeps-pure : (a : A) → Keeps P (pure a)
  unfolding pure
  Keeps-pure a = record { at = λ db h. h }

  pub Keeps-fail : (e : Error) → Keeps P (fail {A = A} e)
  unfolding fail
  Keeps-fail e = record { at = λ db h. h }

  pub Keeps-lift : (r : Result A) → Keeps P (lift r)
  unfolding lift
  Keeps-lift r = record { at = λ db h. h }

  pub Keeps-if :
      (c : Bool) (one other : Exec A)
      → (c ≡ true → Keeps P one)
      → (c ≡ false → Keeps P other)
      → Keeps P (if c then one else other)
  Keeps-if true one other on_yes on_no = on_yes refl
  Keeps-if false one other on_yes on_no = on_no refl

module _ {A B : Type 0} {P : Tables → Type 0} where
  pub at_resume :
      (r : Result A) (handler : Error → Exec B) (f : A → Exec B) (db : Db)
      → ((e : Error) → Keeps P (handler e))
      → ((a : A) → r ≡ ok a → Keeps P (f a))
      → P db.tables
      → P (resume r handler f db).1.tables
  at_resume (ok a) handler f db kh kf h = (kf a refl).at db h
  at_resume (err e) handler f db kh kf h = (kh e).at db h

  pub Keeps-attempt :
      (m : Exec A) (handler : Error → Exec B) (f : A → Exec B)
      → Keeps P m
      → ((e : Error) → Keeps P (handler e))
      → ((a : A) → Keeps P (f a))
      → Keeps P (attempt m handler f)
  unfolding attempt
  Keeps-attempt m handler f km kh kf = record {
    at = λ db h. let (r, db') = m db in at_resume r handler f db' kh (λ a _. kf a) (km.at db h);
  }

  -- The code behind a computation without the database may use that it gave a value.
  pub Keeps-attempt-lift :
      (r : Result A) (handler : Error → Exec B) (f : A → Exec B)
      → ((e : Error) → Keeps P (handler e))
      → ((a : A) → r ≡ ok a → Keeps P (f a))
      → Keeps P (attempt (lift r) handler f)
  unfolding attempt lift
  Keeps-attempt-lift r handler f kh kf = record { at = λ db h. at_resume r handler f db kh kf h }

  pub Keeps-bind :
      (start : Exec A) (next : A → Exec B)
      → Keeps P start
      → ((a : A) → Keeps P (next a))
      → Keeps P (start >>= next)
  unfolding ◌>>=◌
  Keeps-bind start next ks kn = Keeps-attempt start fail next ks Keeps-fail kn

  pub Keeps-ignoring : (m : Exec A) (n : Exec B) → Keeps P m → Keeps P n → Keeps P (ignoring m n)
  unfolding ignoring
  Keeps-ignoring m n km kn = Keeps-attempt m (λ _. n) (λ _. n) km (λ _. kn) (λ _. kn)

pub ruleset keeps_rules =
    (Keeps-pure, Keeps-fail, Keeps-lift, Keeps-if, Keeps-attempt, Keeps-bind, Keeps-ignoring)

at_end :
    {A : Type 0} (P : Tables → Type 0) (old : Tables) (r : Result A) (db : Db)
    → P db.tables
    → P (rolled_back old db.tables)
    → P (end_transaction old r db).1.tables
at_end P old (ok a) db h back = h
at_end P old (err e) db h back = back

module _ {A : Type 0} {P : Tables → Type 0} where
  -- A transaction keeps what its body keeps and what does not depend on the connection's numbers.
  pub Keeps-transaction :
      (m : Exec A)
      → ((old new : Tables) → P old → P (rolled_back old new))
      → Keeps P m
      → Keeps P (transaction m)
  unfolding transaction
  Keeps-transaction m back km = record {
    at = λ db h.
        let (r, db') = m db in at_end P db.tables r db' (km.at db h) (back db.tables db'.tables h);
  }
