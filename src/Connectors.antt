-- ===== src/Connectors.antt =====
-- internal/connectors/connector.go: what a vendor connector is, and the registry.
pub mod Html
pub mod Dates
pub mod Billeriq
pub mod Columbiagaspa
use billtracker_plugin.Base.{List, [], ◌∷◌, Bytes, same, if◌then◌else◌}
use billtracker_plugin.Base.Int.{ℤ}
use billtracker_plugin.Errors.{Result, err, ok, no_connector}
use billtracker_plugin.Calendar.{Date}

pub record Credentials : Type 0 where
  pub tenant : Bytes
  pub username : Bytes
  pub password : Bytes

pub record BillSnapshot : Type 0 where
  pub amount_cents : ℤ
  pub due_date : Date
  pub account_number : Bytes

-- `Connector`: what `FetchBill` returns is what the vendor's site answers at the time.
pub record Connector : Type 0 where
  pub slug : Bytes
  pub fetch_bill : Credentials → Result BillSnapshot

abbrev pub Registry : Type 0
Registry = List Connector

-- `Register`: a later connector with a slug takes the place of an earlier one.
unfoldable pub register : Connector → Registry → Registry
register c r = c ∷ r

-- `Get`.
unfoldable pub get : Bytes → Registry → Result Connector
get s [] = err (no_connector s)
get s (c ∷ r) = if same c.slug s then ok c else get s r
