-- ===== src/Handlers/Pages/Table.antt =====
-- internal/handlers/settings.go, `buildSettingsPageData`: the rows that the settings page prints.
use billtracker_plugin.Base.{
  ℕ, Bool, true, false, Option, none, some, List, [], ◌∷◌, ◌++◌, map, Bytes, codes, ◌==◌,
  if◌then◌else◌,
}
use billtracker_plugin.Base.Int.{pos, negsuc}
use billtracker_plugin.Base.Decimal.{decimal}
use billtracker_plugin.Float.{format_cents, format_cents_plain}
use billtracker_plugin.Errors.{Error, no_simplefin_connection}
use billtracker_plugin.Calendar.{Date, add_days}
use billtracker_plugin.Clock.{Clock}
use billtracker_plugin.Schedule.{ScheduleType, monthly, quarterly, one_off, vendor, BillDefinition}
use billtracker_plugin.Handlers.Forms.Days.{format_date}
use billtracker_plugin.Handlers.Pages.{text_of, split_rows}
use billtracker_plugin.Models.Rows.{Account, BillInstanceView, SimpleFinConnection, Instant}
use billtracker_plugin.Models.Database.{Exec, pure, fail, attempt, ◌>>=◌}
use billtracker_plugin.Models.Bills
use billtracker_plugin.Models.Instances
use billtracker_plugin.Models.Accounts
use billtracker_plugin.Models.SimpleFin

pub record SettingsInstanceRow : Type 0 where
  pub instance_id : ℕ
  pub name : Bytes
  pub amount : Bytes
  pub due : Date
  pub paid : Bool
  pub bootstrap_managed : Bool

-- `quarterRotationMonths`, with the empty text where the map has no entry.
abbrev quarter_rotation_months : ℕ → Bytes
quarter_rotation_months m =
    if m == 1
    then codes "Jan/Apr/Jul/Oct"
    else if m == 2
    then codes "Feb/May/Aug/Nov"
    else if m == 3
    then codes "Mar/Jun/Sep/Dec"
    else []

-- `scheduleDescription`.
unfoldable pub schedule_description : ScheduleType → Option ℕ → Option ℕ → Option Date → Bytes
schedule_description one_off day start (some t) = codes "One-off: " ++ format_date t
schedule_description monthly (some day) start t = codes "Monthly on day " ++ decimal day
schedule_description quarterly (some day) (some start) t =
    codes "Quarterly (" ++ quarter_rotation_months start ++ codes ") on day " ++ decimal day
schedule_description _ _ _ _ = codes "Unknown schedule"

-- `string(def.ScheduleType)`.
abbrev pub schedule_word : ScheduleType → Bytes
schedule_word monthly = codes "monthly"
schedule_word quarterly = codes "quarterly"
schedule_word one_off = codes "one_off"
schedule_word vendor = codes "vendor"

-- `strconv.Itoa` of a nullable column, empty for NULL.
abbrev pub number_of : Option ℕ → Bytes
number_of none = []
number_of (some n) = decimal n

abbrev pub day_text : Option Date → Bytes
day_text none = []
day_text (some t) = format_date t

pub record SettingsBillDefRow : Type 0 where
  pub id : ℕ
  pub name : Bytes
  pub amount : Bytes
  pub amount_dollars : Bytes
  pub schedule_desc : Bytes
  pub schedule_type : Bytes
  pub day_of_month : Bytes
  pub quarter_start_month : Bytes
  pub one_off_date : Bytes
  pub vendor_url : Bytes
  pub bootstrap_managed : Bool

pub record SettingsAccountRow : Type 0 where
  pub id : ℕ
  pub name : Bytes
  pub display_name : Bytes
  pub org_name : Bytes
  pub balance : Bytes
  pub visible : Bool
  pub is_credit : Bool

pub record SettingsPageData : Type 0 where
  pub instances : List SettingsInstanceRow
  pub definitions : List SettingsBillDefRow
  pub simplefin_connected : Bool
  pub simplefin_last_synced : Option Instant
  pub simplefin_last_error : Option Error
  pub accounts : List SettingsAccountRow

-- `bootstrapByID`: the last definition with the id has the say; false without one.
unfoldable pub bootstrap_by_id : Bool → List BillDefinition → ℕ → Bool
bootstrap_by_id otherwise [] id = otherwise
bootstrap_by_id otherwise (d ∷ ds) id =
    bootstrap_by_id (if d.id == id then d.bootstrap_managed else otherwise) ds id

abbrev pub settings_instance_row : List BillDefinition → BillInstanceView → SettingsInstanceRow
settings_instance_row defs i = record {
  instance_id = i.instance_id;
  name = i.name;
  amount = format_cents i.amount_cents;
  due = i.due_date;
  paid = i.paid;
  bootstrap_managed = bootstrap_by_id false defs i.definition_id;
}

abbrev pub settings_bill_def_row : BillDefinition → SettingsBillDefRow
settings_bill_def_row d = record {
  id = d.id;
  name = d.name;
  amount = format_cents d.amount_cents;
  amount_dollars = format_cents_plain d.amount_cents;
  schedule_desc =
      schedule_description d.schedule_type d.day_of_month d.quarter_start_month d.one_off_date;
  schedule_type = schedule_word d.schedule_type;
  day_of_month = number_of d.day_of_month;
  quarter_start_month = number_of d.quarter_start_month;
  one_off_date = day_text d.one_off_date;
  vendor_url = text_of d.vendor_url;
  bootstrap_managed = d.bootstrap_managed;
}

abbrev pub settings_account_row : Account → SettingsAccountRow
settings_account_row a = record {
  id = a.id;
  name = a.name;
  display_name = text_of a.display_name;
  org_name = text_of a.org_name;
  balance = format_cents a.balance_cents;
  visible = a.visible;
  is_credit = Accounts.is_credit a;
}

abbrev unconnected : List BillInstanceView → List BillDefinition → SettingsPageData
unconnected instances defs = record {
  instances = map (settings_instance_row defs) instances;
  definitions = map settings_bill_def_row defs;
  simplefin_connected = false;
  simplefin_last_synced = none;
  simplefin_last_error = none;
  accounts = [];
}

abbrev connected : SettingsPageData → SimpleFinConnection → List Account → SettingsPageData
connected page conn accounts = record page {
  simplefin_connected = true;
  simplefin_last_synced = conn.last_synced_at;
  simplefin_last_error = conn.last_sync_error;
  accounts = split_rows settings_account_row [] [] accounts;
}

-- An error other than `ErrNoSimpleFinConnection` is returned.
abbrev pub is_unconnected : Error → Bool
is_unconnected no_simplefin_connection = true
is_unconnected e = false

abbrev pub unless_unconnected : SettingsPageData → Error → Exec SettingsPageData
unless_unconnected page e = if is_unconnected e then pure page else fail e

-- `buildSettingsPageData`: from 30 days back to 90 days ahead.
unfoldable pub build_settings_page_data : Clock → Exec SettingsPageData
build_settings_page_data clock =
    Instances.list_all_for_settings (add_days clock.utc_midnight (negsuc 29))
      (add_days clock.utc_midnight (pos 90))
    >>= λ instances. Bills.list_all >>= λ defs.
        let page = unconnected instances defs in
        attempt SimpleFin.get (unless_unconnected page)
          λ conn. Accounts.list_all >>= λ accounts. pure (connected page conn accounts)
