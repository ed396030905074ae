-- ===== src/Scheduler/Balances.antt =====
-- A refresh of the balances that goes well: from the bridge's answer to the rows of the accounts.
mod Upserts
use billtracker_plugin.Base.{
  suc, is_empty, ◌≡◌, refl, ap, sym, subst, ◌∙◌, Bool, true, false, Option, none, some, List, [],
  ◌∷◌, ◌++◌, Bytes, All, Any, Any-append_right, Distinct, exists, update, same, same_sound,
  if◌then◌else◌, Bool-cases, inl, inr, map,
}
use billtracker_plugin.Base.Int.{ℤ, fits_int64}
use billtracker_plugin.Errors.{Result, ok}
use billtracker_plugin.Clock.{Clock}
use billtracker_plugin.Crypto.{Aead, decrypt}
use billtracker_plugin.Models.Rows.{Instant, Account, SimpleFinConnection, Tables}
use billtracker_plugin.Models.Database.{Db, statement, attempt, lift, ignoring, pure}
use billtracker_plugin.Models.Database.Quiet.{quiet, ignoring_runs, attempt_ok}
use billtracker_plugin.Models.Accounts
use billtracker_plugin.Models.Accounts.{Synced, resynced, first_synced}
use billtracker_plugin.Models.SimpleFin
use billtracker_plugin.Money.Text.{money}
use billtracker_plugin.SimpleFin.{
  Url, Request, Response, Entry, SimplefinAccountsResponse, account_of, synced, fetch_accounts,
  all_synced, synced_result,
}
use billtracker_plugin.SimpleFin.Balances.{Exchange, fetch_accounts-money}
use billtracker_plugin.Scheduler.{done, store_accounts, sync_connection, refresh_simplefin_now}
use billtracker_plugin.Scheduler.Balances.Upserts.{
  Shows, IsShown, Apart, stored, stored-shows, store_accounts-quiet,
}

get-quiet :
    (conn : SimpleFinConnection) (more : List SimpleFinConnection) (t : Tables)
    → t.simplefin_connections ≡ conn ∷ more
    → SimpleFin.get (quiet t) ≡ (ok conn, quiet t)
unfolding SimpleFin.get statement
get-quiet conn more t e = ap (λ l. (SimpleFin.scan_connection l, quiet t)) e

lifted : {A : Type 0} (r : Result A) (a : A) (db : Db) → r ≡ ok a → lift r db ≡ (ok a, db)
unfolding lift
lifted r a db e = ap (λ x. (x, db)) e

module _ (gcm : Aead) (fetch_accounts : Bytes → Result (List Synced)) (clock : Clock) where
  -- Where a connection is stored, its access URL opens and the bridge reports accounts, a refresh on
  -- a database that fails nothing leaves the tables with these accounts stored.
  refresh-quiet :
      (conn : SimpleFinConnection) (more : List SimpleFinConnection) (url : Bytes)
      (xs : List Synced) (t : Tables)
      → t.simplefin_connections ≡ conn ∷ more
      → decrypt gcm conn.encrypted_access_url ≡ ok url
      → fetch_accounts url ≡ ok xs
      → (refresh_simplefin_now gcm fetch_accounts clock (quiet t)).1.tables.accounts
        ≡ (stored clock.now xs t).accounts
  unfolding refresh_simplefin_now SimpleFin.mark_synced statement ignoring attempt pure
  refresh-quiet conn more url xs t connected opened fetched =
      ap (λ (x : Result (Unit {0}) × Db). x.1.tables.accounts)
        (attempt_ok SimpleFin.get _ (sync_connection gcm fetch_accounts clock) (quiet t) (quiet t)
            conn (get-quiet conn more t connected)
          ∙ attempt_ok (lift (decrypt gcm conn.encrypted_access_url)) _ _ (quiet t) (quiet t) url
              (lifted _ _ (quiet t) opened)
          ∙ attempt_ok (lift (fetch_accounts url)) _ _ (quiet t) (quiet t) xs
              (lifted _ _ (quiet t) fetched)
          ∙ ignoring_runs (store_accounts clock.now xs) _ (quiet t)
          ∙ ap
              (λ (x : Result (Unit {0}) × Db).
                ignoring (SimpleFin.mark_synced clock.now conn.id none) done x.1)
              (store_accounts-quiet clock.now xs t))

  -- On a database that fails nothing, with a connection whose access URL opens and a bridge that
  -- reports accounts of different ids, every one of them has a row after the refresh that shows its
  -- balance and its available balance as of that time.
  pub refresh_shows_accounts :
      (conn : SimpleFinConnection) (more : List SimpleFinConnection) (url : Bytes)
      (xs : List Synced) (t : Tables)
      → t.simplefin_connections ≡ conn ∷ more
      → decrypt gcm conn.encrypted_access_url ≡ ok url
      → fetch_accounts url ≡ ok xs
      → Distinct Apart xs
      → All
          (λ s.
            IsShown clock.now s (refresh_simplefin_now gcm fetch_accounts clock (quiet t)).1.tables)
          xs
  refresh_shows_accounts conn more url xs t connected opened fetched distinct =
      subst (λ rows. All (λ s. Any (Shows clock.now s) rows) xs)
        (sym (refresh-quiet conn more url xs t connected opened fetched))
        (stored-shows clock.now xs t distinct)

-- What the client returns, as the scheduler stores it.
abbrev reported : (Entry → ℤ) → List Entry → List Synced
reported cents entries = all_synced (map (λ e. account_of e (cents e)) entries)

-- A row shows an entry of the bridge's answer with a balance, at that time.
pub record ShowsEntry (now : Instant) (e : Entry) (cents : ℤ) (a : Account) : Type 0 where
  pub same_id : a.simplefin_id ≡ e.id
  pub org : a.org_name ≡ (if is_empty e.org_name then none else some e.org_name)
  pub name : a.name ≡ e.name
  pub currency : a.currency ≡ e.currency
  pub balance : a.balance_cents ≡ cents
  pub synced : a.last_synced_at ≡ some now

module _ (cents : Entry → ℤ) where
  reported-All :
      (P : Bytes → Type 0) (entries : List Entry)
      → All (λ e. P e.id) entries
      → All (λ s. P s.simplefin_id) (reported cents entries)
  reported-All P [] h = tt
  reported-All P (e ∷ entries) h = (h.0, reported-All P entries h.1)

  reported-Distinct :
      (entries : List Entry)
      → Distinct (λ e e'. same e.id e'.id ≡ false) entries
      → Distinct Apart (reported cents entries)
  reported-Distinct [] h = tt
  reported-Distinct (e ∷ entries) h =
      (reported-All (λ id. same e.id id ≡ false) entries h.0, reported-Distinct entries h.1)

module _ (now : Instant) (cents : Entry → ℤ) where
  entry-shown :
      (e : Entry) (rows : List Account)
      → Any (Shows now (synced (account_of e (cents e)))) rows
      → Any (ShowsEntry now e (cents e)) rows
  entry-shown e [] h = h
  entry-shown e (a ∷ rows) (inl x) = inl (record {
    same_id = x.same_id;
    org = x.org;
    name = x.name;
    currency = x.currency;
    balance = x.balance;
    synced = x.synced;
  })
  entry-shown e (a ∷ rows) (inr more) = inr (entry-shown e rows more)

  entries-shown :
      (rows : List Account) (entries : List Entry)
      → All (λ s. Any (Shows now s) rows) (reported cents entries)
      → All (λ e. Any (ShowsEntry now e (cents e)) rows) entries
  entries-shown rows [] h = tt
  entries-shown rows (e ∷ entries) h = (entry-shown e rows h.0, entries-shown rows entries h.1)

module _ (gcm : Aead) (clock : Clock) (insecure : Bool) (parse : Bytes → Option Url)
    (send : Request → Result Response) (decode : Bytes → Option SimplefinAccountsResponse) where
  abbrev pub ask_bridge : Bytes → Result (List Synced)
  ask_bridge url = synced_result (fetch_accounts insecure parse send decode url)

  -- From the bridge to the tables: where a connection is stored and opens, the bridge answers, and
  -- its accounts have different ids and balances that are printed amounts of cents, the refresh on a
  -- database that fails nothing leaves for each of them a row with its id, its name and currency, its
  -- organisation where it is not empty, and just these cents, as of that time.
  pub refresh_shows_balances :
      (conn : SimpleFinConnection) (more : List SimpleFinConnection) (url : Bytes)
      (cents : Entry → ℤ) (entries : List Entry) (t : Tables)
      → t.simplefin_connections ≡ conn ∷ more
      → decrypt gcm conn.encrypted_access_url ≡ ok url
      → Exchange insecure parse send decode url entries
      → All (λ e. (fits_int64 (cents e) ≡ true) × (e.balance ≡ money (cents e))) entries
      → Distinct (λ e e'. same e.id e'.id ≡ false) entries
      → All
          (λ e.
            Any
              (ShowsEntry clock.now e (cents e))
              (refresh_simplefin_now gcm ask_bridge clock (quiet t)).1.tables.accounts)
          entries
  refresh_shows_balances conn more url cents entries t connected opened exchanged printed distinct =
      entries-shown clock.now cents _ entries (
        refresh_shows_accounts gcm ask_bridge clock conn more url (reported cents entries) t
          connected opened
          (ap synced_result
            (fetch_accounts-money insecure parse send decode url cents entries exchanged printed))
          (reported-Distinct cents entries distinct))
