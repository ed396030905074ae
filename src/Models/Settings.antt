-- ===== src/Models/Settings.antt =====
-- internal/models/settings.go: the key/value store.
pub mod Refines
use billtracker_plugin.Base.{
  Option, none, some, List, [], ◌∷◌, Bytes, same, if◌then◌else◌, ◌≡◌, refl, arith, same_iff,
}
use billtracker_plugin.Errors.{ok}
use billtracker_plugin.Models.Database.{Exec, statement}

unfoldable pub lookup : Bytes → List (Bytes × Bytes) → Option Bytes
lookup k [] = none
lookup k ((j, v) ∷ m) = if same j k then some v else lookup k m

-- `ON CONFLICT (key) DO UPDATE`.
unfoldable pub insert : Bytes → Bytes → List (Bytes × Bytes) → List (Bytes × Bytes)
insert k v [] = (k, v) ∷ []
insert k v ((j, w) ∷ m) = if same j k then (j, v) ∷ m else (j, w) ∷ insert k v m

abbrev pub value_or : Option Bytes → Bytes → Bytes
value_or none def = def
value_or (some v) def = v

-- `Get` and `Set`.
unfoldable pub get : Bytes → Bytes → Exec Bytes
get key def = statement λ t. (ok (value_or (lookup key t.settings) def), t)

unfoldable pub set : Bytes → Bytes → Exec (Unit {0})
set key value = statement λ t. (ok tt, record t { settings = insert key value t.settings })

pub lookup-insert :
    (k j : Bytes) (v : Bytes) (m : List (Bytes × Bytes))
    → lookup j (insert k v m) ≡ (if same k j then some v else lookup j m)
unfolding lookup insert
lookup-insert k j v [] = refl
lookup-insert k j v ((i, w) ∷ m) =
    ground (arith, same_iff k j, same_iff i k, same_iff i j, lookup-insert k j v m)
