-- ===== src/Models/Settings/Refines.antt =====
-- The settings store against what it promises: a map from keys to values.
use billtracker_plugin.Base.{
  ◌≡◌, refl, ap, ◌∙◌, Bool, true, false, Option, some, List, [], ◌∷◌, Bytes, same, if◌then◌else◌,
}
use billtracker_plugin.Errors.{db_failure, Result, ok, err}
use billtracker_plugin.Models.Rows.{Tables}
use billtracker_plugin.Models.Database.{Db, Exec, statement, pure, attempt, fail, ◌>>=◌}
use billtracker_plugin.Models.Settings.{lookup, insert, value_or, get, set, lookup-insert}

-- A call of the store.
pub data Call : Type 0 where
  get_call : Bytes → Bytes → Call
  set_call : Bytes → Bytes → Call

-- A call that returns only an error or none is given no bytes.
abbrev pub run_call : Call → Exec Bytes
run_call (get_call key def) = get key def
run_call (set_call key value) = set key value >>= λ _. pure []

abbrev pub run_calls : List Call → Db → List (Result Bytes)
run_calls [] db = []
run_calls (c ∷ cs) db = let (r, db') = run_call c db in r ∷ run_calls cs db'

-- The abstract store: a partial function, and whether each call to come fails.
abbrev pub Map : Type 0
Map = Bytes → Option Bytes

abbrev pub put : Bytes → Bytes → Map → Map
put key value m k = if same key k then some value else m k

abbrev pub says : Map → Call → Result Bytes
says m (get_call key def) = ok (value_or (m key) def)
says m (set_call key value) = ok []

abbrev pub becomes : Map → Call → Map
becomes m (get_call key def) = m
becomes m (set_call key value) = put key value m

abbrev pub promised : List Call → List Bool → Map → List (Result Bytes)
promised [] outages m = []
promised (c ∷ cs) [] m = says m c ∷ promised cs [] (becomes m c)
promised (c ∷ cs) (false ∷ rest) m = says m c ∷ promised cs rest (becomes m c)
promised (c ∷ cs) (true ∷ rest) m = err db_failure ∷ promised cs rest m

-- The table holds what the map says.
abbrev pub Holds : Map → Tables → Type 0
Holds m t = (k : Bytes) → lookup k t.settings ≡ m k

abbrev with_setting : Bytes → Bytes → Tables → Tables
with_setting key value t = record t { settings = insert key value t.settings }

Holds-put :
    (key value : Bytes) (m : Map) (t : Tables)
    → Holds m t
    → Holds (put key value m) (with_setting key value t)
Holds-put key value m t h k =
    lookup-insert key k value t.settings ∙ ap (λ o. if same key k then some value else o) (h k)

-- Whatever calls follow each other and whichever of them the database fails, `Get` and `Set` answer
-- as the map does: a value that was set last, the default for a key that was never set, and an
-- error for a failing call, which changes nothing.
pub settings_refine_map :
    (calls : List Call) (outages : List Bool) (m : Map) (t : Tables)
    → Holds m t
    → run_calls calls (record { tables = t; outages = outages }) ≡ promised calls outages m
unfolding get set statement ◌>>=◌ pure attempt fail
settings_refine_map [] outages m t h = refl
settings_refine_map (get_call key def ∷ cs) [] m t h = rw (h key, settings_refine_map cs [] m t h)
settings_refine_map (get_call key def ∷ cs) (false ∷ rest) m t h =
    rw (h key, settings_refine_map cs rest m t h)
settings_refine_map (get_call key def ∷ cs) (true ∷ rest) m t h =
    rw (settings_refine_map cs rest m t h)
settings_refine_map (set_call key value ∷ cs) [] m t h = rw (
    settings_refine_map cs [] (put key value m) (with_setting key value t)
      (Holds-put key value m t h))
settings_refine_map (set_call key value ∷ cs) (false ∷ rest) m t h = rw (
    settings_refine_map cs rest (put key value m) (with_setting key value t)
      (Holds-put key value m t h))
settings_refine_map (set_call key value ∷ cs) (true ∷ rest) m t h =
    rw (settings_refine_map cs rest m t h)
