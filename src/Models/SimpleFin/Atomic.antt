-- ===== src/Models/SimpleFin/Atomic.antt =====
-- `Connect` replaces the connection in one transaction.
use billtracker_plugin.Base.{suc, ◌≡◌, refl, ◌⊎◌, inl, inr, Bool, true, false, List, [], ◌∷◌, Bytes}
use billtracker_plugin.Errors.{Error, Result, ok, err, db_failure}
use billtracker_plugin.Models.Rows.{Instant, Tables}
use billtracker_plugin.Models.Database.{Db, statement, transaction, rolled_back, ◌>>=◌}
use billtracker_plugin.Models.SimpleFin.{
  new_connection, begin_or_commit, disconnect, insert_connection, connect,
}

-- The tables with the new connection in the place of any other.
abbrev pub connected : Instant → Bytes → Tables → Tables
connected now url t = record t {
  simplefin_connections = new_connection t.next_simplefin now url ∷ [];
  next_simplefin = suc t.next_simplefin;
}

-- All of the change with no error, or none of it with one.
abbrev pub Connects : Instant → Bytes → Tables → Result (Unit {0}) × Db → Type 0
Connects now url t after =
    ((after.0 ≡ ok tt) × (after.1.tables ≡ connected now url t))
    ⊎ ((e : Error) × (after.0 ≡ err e) × (after.1.tables ≡ rolled_back t after.1.tables))

module _ (now : Instant) (url : Bytes) (t : Tables) where
  -- Whichever of its four statements the database fails, `Connect` either returns no error and has
  -- replaced every connection by the new one, or returns an error and has changed no row.
  pub connect_atomic :
      (outages : List Bool)
      → Connects now url t (connect now url (record { tables = t; outages = outages }))
  unfolding connect transaction ◌>>=◌ statement begin_or_commit disconnect insert_connection
  connect_atomic [] = inl (refl, refl)
  connect_atomic (true ∷ rest) = inr (db_failure, refl, refl)
  connect_atomic (false ∷ []) = inl (refl, refl)
  connect_atomic (false ∷ true ∷ rest) = inr (db_failure, refl, refl)
  connect_atomic (false ∷ false ∷ []) = inl (refl, refl)
  connect_atomic (false ∷ false ∷ true ∷ rest) = inr (db_failure, refl, refl)
  connect_atomic (false ∷ false ∷ false ∷ []) = inl (refl, refl)
  connect_atomic (false ∷ false ∷ false ∷ true ∷ rest) = inr (db_failure, refl, refl)
  connect_atomic (false ∷ false ∷ false ∷ false ∷ rest) = inl (refl, refl)
