-- ===== src/Models/Accounts.antt =====
-- internal/models/account.go: accounts and `AccountStore`.
use billtracker_plugin.Base.{
  ℕ, suc, Bool, true, Option, none, some, List, [], ◌∷◌, ◌++◌, Bytes, same, is_empty, if◌then◌else◌,
  select, update, exists,
}
use billtracker_plugin.Base.Int.{ℤ, pos, id_is, ltb_ℤ}
use billtracker_plugin.Errors.{ok}
use billtracker_plugin.Schedule.{BillDefinition}
use billtracker_plugin.Models.Rows.{Instant, Account, Tables}
use billtracker_plugin.Models.Database.{Exec, statement}
use billtracker_plugin.Models.Sorting.{order_by}

abbrev label_or : Option Bytes → Bytes → Bytes
label_or none name = name
label_or (some label) name = if is_empty label then name else label

-- `EffectiveName`.
unfoldable pub effective_name : Account → Bytes
effective_name a = label_or a.display_name a.name

-- `IsCredit`.
unfoldable pub is_credit : Account → Bool
is_credit a = ltb_ℤ a.balance_cents (pos 0)

abbrev by_name : Tables → List Account → List Account
by_name t = order_by (λ a b. t.collate a.name b.name)

-- `ListVisible` and `ListAll`.
unfoldable pub list_visible : Exec (List Account)
list_visible = statement λ t. (ok (by_name t (select (λ a. a.visible) t.accounts)), t)

unfoldable pub list_all : Exec (List Account)
list_all = statement λ t. (ok (by_name t t.accounts), t)

-- What a sync reports of an account.
pub record Synced : Type 0 where
  pub simplefin_id : Bytes
  pub org_name : Option Bytes
  pub name : Bytes
  pub currency : Bytes
  pub balance_cents : ℤ
  pub available_balance_cents : Option ℤ
  pub balance_date : Option Instant

-- `ON CONFLICT … DO UPDATE`: the display name and the visibility stay.
abbrev pub resynced : Instant → Synced → Account → Account
resynced now s a = record a {
  org_name = s.org_name;
  name = s.name;
  currency = s.currency;
  balance_cents = s.balance_cents;
  available_balance_cents = s.available_balance_cents;
  balance_date = s.balance_date;
  last_synced_at = some now;
}

abbrev pub first_synced : ℕ → Instant → Synced → Account
first_synced id now s = record {
  id = id;
  simplefin_id = s.simplefin_id;
  org_name = s.org_name;
  name = s.name;
  display_name = none;
  currency = s.currency;
  balance_cents = s.balance_cents;
  available_balance_cents = s.available_balance_cents;
  balance_date = s.balance_date;
  visible = true;
  last_synced_at = some now;
}

-- `Upsert`.
unfoldable pub upsert : Instant → Synced → Exec (Unit {0})
upsert now s = statement λ t. (
  ok tt,
  record t {
    accounts =
        if exists (λ a. same a.simplefin_id s.simplefin_id) t.accounts
        then update (λ a. same a.simplefin_id s.simplefin_id) (resynced now s) t.accounts
        else t.accounts ++ first_synced t.next_account now s ∷ [];
    next_account = suc t.next_account;
  },
)

-- `SetVisible`.
unfoldable pub set_visible : ℤ → Bool → Exec (Unit {0})
set_visible id visible = statement λ t. (
  ok tt,
  record t {
    accounts = update (λ a. id_is id a.id) (λ a. record a { visible = visible }) t.accounts;
  },
)

-- `NULLIF($2, '')`.
abbrev null_if_empty : Bytes → Option Bytes
null_if_empty s = if is_empty s then none else some s

abbrev pub relabelled : Bytes → Account → Account
relabelled name a = record a { display_name = null_if_empty name }

-- `SetDisplayName`.
unfoldable pub set_display_name : ℤ → Bytes → Exec (Unit {0})
set_display_name id name =
    statement
      λ t. (ok tt, record t { accounts = update (λ a. id_is id a.id) (relabelled name) t.accounts })

-- ON DELETE SET NULL of bt_bill_definitions.simplefin_account_id.
abbrev pub unlinked : BillDefinition → BillDefinition
unlinked d = record d { simplefin_account_id = none }

-- `DeleteAll`.
unfoldable pub delete_all : Exec (Unit {0})
delete_all = statement λ t. (
  ok tt,
  record t { accounts = []; bill_definitions = update (λ _. true) unlinked t.bill_definitions },
)
