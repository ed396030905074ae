-- ===== src/Models/Consistent/Accounts.antt =====
-- The stores of accounts, of the SimpleFIN connection and of settings keep the tables consistent.
use billtracker_plugin.Base.{
  inl, inr, ℕ, suc, ◌≤◌, ◌≡◌, refl, Bool, true, false, List, [], ◌∷◌, arith, length, Distinct,
  Distinct-concat, Distinct-update, exists, exists-none, Bytes, same, if◌then◌else◌, Option, update,
  length-update, ◌++◌,
}
use billtracker_plugin.Base.Int.{ℤ}
use billtracker_plugin.Errors.{Error}
use billtracker_plugin.Models.Rows.{Instant, Account, SimpleFinConnection, Tables, row_allowed}
use billtracker_plugin.Models.Database.{Db}
use billtracker_plugin.Models.SimpleFin.Atomic.{Connects, connect_atomic}
use billtracker_plugin.Models.Database.Keeps.{Keeps, Keeps-statement}
use billtracker_plugin.Models.Accounts
use billtracker_plugin.Models.Accounts.{Synced, resynced, first_synced, unlinked, relabelled}
use billtracker_plugin.Models.SimpleFin
use billtracker_plugin.Models.Settings
use billtracker_plugin.Models.Consistent.{IsConsistent}
use billtracker_plugin.Models.Consistent.Bills.{set_definitions-IsConsistent}

module _ (t : Tables) (c : IsConsistent t) where
  -- Changes to the accounts alone.
  accounts-IsConsistent :
      (rows : List Account) (next : ℕ)
      → Distinct (λ a b. same a.simplefin_id b.simplefin_id ≡ false) rows
      → IsConsistent (record t { accounts = rows; next_account = next })
  accounts-IsConsistent rows next keys = record {
    definition_ids = c.definition_ids;
    definition_bound = c.definition_bound;
    definitions_allowed = c.definitions_allowed;
    instance_ids = c.instance_ids;
    instance_bound = c.instance_bound;
    instance_keys = c.instance_keys;
    instance_bills = c.instance_bills;
    vendor_keys = c.vendor_keys;
    vendor_bills = c.vendor_bills;
    account_keys = keys;
    one_connection = c.one_connection;
  }

  set_accounts-IsConsistent :
      (p : Account → Bool) (f : Account → Account) (next : ℕ)
      → ((a : Account) → (f a).simplefin_id ≡ a.simplefin_id)
      → IsConsistent (record t { accounts = update p f t.accounts; next_account = next })
  set_accounts-IsConsistent p f next same_key = accounts-IsConsistent _ next (
      Distinct-update (λ a b. same a.simplefin_id b.simplefin_id ≡ false) p f
        (λ x y h. rw same_key h) (λ x y h. rw same_key h) _ c.account_keys)

  -- Changes to the SimpleFIN connection alone.
  connections-IsConsistent :
      (cs : List SimpleFinConnection) (next : ℕ)
      → length cs ≤ 1
      → IsConsistent (record t { simplefin_connections = cs; next_simplefin = next })
  connections-IsConsistent cs next one = record {
    definition_ids = c.definition_ids;
    definition_bound = c.definition_bound;
    definitions_allowed = c.definitions_allowed;
    instance_ids = c.instance_ids;
    instance_bound = c.instance_bound;
    instance_keys = c.instance_keys;
    instance_bills = c.instance_bills;
    vendor_keys = c.vendor_keys;
    vendor_bills = c.vendor_bills;
    account_keys = c.account_keys;
    one_connection = one;
  }

  settings-IsConsistent :
      (rows : List (Bytes × Bytes)) → IsConsistent (record t { settings = rows })
  settings-IsConsistent rows = record {
    definition_ids = c.definition_ids;
    definition_bound = c.definition_bound;
    definitions_allowed = c.definitions_allowed;
    instance_ids = c.instance_ids;
    instance_bound = c.instance_bound;
    instance_keys = c.instance_keys;
    instance_bills = c.instance_bills;
    vendor_keys = c.vendor_keys;
    vendor_bills = c.vendor_bills;
    account_keys = c.account_keys;
    one_connection = c.one_connection;
  }

  upserted-IsConsistent :
      (b : Bool) (now : Instant) (s : Synced)
      → exists (λ a. same a.simplefin_id s.simplefin_id) t.accounts ≡ b
      → IsConsistent (record t {
        accounts =
            if b
            then update (λ a. same a.simplefin_id s.simplefin_id) (resynced now s) t.accounts
            else t.accounts ++ first_synced t.next_account now s ∷ [];
        next_account = suc t.next_account;
      })
  upserted-IsConsistent true now s e = set_accounts-IsConsistent _ (resynced now s) _ (λ a. refl)
  upserted-IsConsistent false now s e = accounts-IsConsistent _ _ (
      Distinct-concat (λ a b. same a.simplefin_id b.simplefin_id ≡ false) _ _ c.account_keys
        (exists-none _ t.accounts e))

pub accounts_upsert-IsConsistent :
    (now : Instant) (s : Synced) → Keeps IsConsistent (Accounts.upsert now s)
unfolding Accounts.upsert
accounts_upsert-IsConsistent now s = Keeps-statement _ (λ t c.
    upserted-IsConsistent t c (exists (λ a. same a.simplefin_id s.simplefin_id) t.accounts) now s
      refl)

pub set_visible-IsConsistent : (id : ℤ) (b : Bool) → Keeps IsConsistent (Accounts.set_visible id b)
unfolding Accounts.set_visible
set_visible-IsConsistent id b = Keeps-statement _ (λ t c.
    set_accounts-IsConsistent t c _ (λ a. record a { visible = b }) t.next_account (λ a. refl))

pub set_display_name-IsConsistent :
    (id : ℤ) (name : Bytes) → Keeps IsConsistent (Accounts.set_display_name id name)
unfolding Accounts.set_display_name
set_display_name-IsConsistent id name =
    Keeps-statement _
      (λ t c. set_accounts-IsConsistent t c _ (relabelled name) t.next_account (λ a. refl))

pub delete_all-IsConsistent : Keeps IsConsistent Accounts.delete_all
unfolding Accounts.delete_all row_allowed
delete_all-IsConsistent = Keeps-statement _ (λ t c.
    accounts-IsConsistent _
      (set_definitions-IsConsistent (λ _. true) unlinked t (λ d. refl) (λ d _ h. h) c) []
      t.next_account tt)

pub list_visible-IsConsistent : Keeps IsConsistent Accounts.list_visible
unfolding Accounts.list_visible
list_visible-IsConsistent = Keeps-statement _ (λ t c. c)

pub accounts_list_all-IsConsistent : Keeps IsConsistent Accounts.list_all
unfolding Accounts.list_all
accounts_list_all-IsConsistent = Keeps-statement _ (λ t c. c)

pub simplefin_get-IsConsistent : Keeps IsConsistent SimpleFin.get
unfolding SimpleFin.get
simplefin_get-IsConsistent = Keeps-statement _ (λ t c. c)

pub disconnect-IsConsistent : Keeps IsConsistent SimpleFin.disconnect
unfolding SimpleFin.disconnect
disconnect-IsConsistent =
    Keeps-statement _ (λ t c. connections-IsConsistent t c [] t.next_simplefin (omega arith))

pub simplefin_synced-IsConsistent :
    (now : Instant) (id : ℕ) (e : Option Error)
    → Keeps IsConsistent (SimpleFin.mark_synced now id e)
unfolding SimpleFin.mark_synced
simplefin_synced-IsConsistent now id e = Keeps-statement _ (λ t c.
    connections-IsConsistent t c _ t.next_simplefin
      (rw (length-update _ _ t.simplefin_connections) c.one_connection))

pub settings_get-IsConsistent : (k d : Bytes) → Keeps IsConsistent (Settings.get k d)
unfolding Settings.get
settings_get-IsConsistent k d = Keeps-statement _ (λ t c. c)

pub settings_set-IsConsistent : (k v : Bytes) → Keeps IsConsistent (Settings.set k v)
unfolding Settings.set
settings_set-IsConsistent k v = Keeps-statement _ (λ t c. settings-IsConsistent t c _)

-- `Connect` keeps the tables consistent, and so it does where a statement of it fails.
pub connect-IsConsistent :
    (now : Instant) (url : Bytes) → Keeps IsConsistent (SimpleFin.connect now url)
connect-IsConsistent now url = record {
  at = λ db c. after db c (connect_atomic now url db.tables db.outages);
}
  where
    after :
        (db : Db)
        → IsConsistent db.tables
        → Connects now url db.tables (SimpleFin.connect now url db)
        → IsConsistent (SimpleFin.connect now url db).1.tables
    after db c (inl done) = rw (done.1) (connections-IsConsistent db.tables c _ _ (omega arith))
    after db c (inr failed) =
        rw (failed.2) (connections-IsConsistent db.tables c _ _ c.one_connection)
