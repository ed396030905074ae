-- ===== src/Handlers/Manifest.antt =====
-- internal/handlers/manifest.go: what the plugin says of itself. The icon, a literal, is left out.
use billtracker_plugin.Base.{Bool, true, List, [], ◌∷◌, Bytes, codes}

pub record ManifestView : Type 0 where
  pub id : Bytes
  pub enabled : Bool
  pub label : Bytes

pub record Manifest : Type 0 where
  pub id : Bytes
  pub name : Bytes
  pub version : Bytes
  pub views : List ManifestView
  pub provides_events : Bool

-- `App.Manifest`, over the plugin's version.
unfoldable pub manifest : Bytes → Manifest
manifest version = record {
  id = codes "bill-tracker";
  name = codes "Bill Tracker";
  version = version;
  views = record { id = codes "bills"; enabled = true; label = codes "Bills" } ∷ [];
  provides_events = true;
}
