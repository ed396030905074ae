-- ===== src/Scheduler/Choices.antt =====
-- Refreshing SimpleFIN accounts: what the refresh keeps of the accounts that people have set up.
use billtracker_plugin.Base.{
  ℕ, ◌≡◌, refl, ap, ◌∙◌, Bool, Option, none, some, List, [], ◌∷◌, ◌++◌, map, append_assoc,
  append-nil, Bytes, update, exists, same, Bool-cases, inl, inr,
}
use billtracker_plugin.Errors.{Error, Result}
use billtracker_plugin.Clock.{Clock}
use billtracker_plugin.Crypto.{Aead, decrypt}
use billtracker_plugin.Models.Rows.{Instant, Account, SimpleFinConnection, Tables}
use billtracker_plugin.Models.Database.{Db}
use billtracker_plugin.Models.Database.Keeps.{
  Keeps, Keeps-statement, Keeps-ignoring, Keeps-attempt, Keeps-pure, Keeps-lift,
}
use billtracker_plugin.Models.Accounts
use billtracker_plugin.Models.Accounts.{Synced, resynced, first_synced}
use billtracker_plugin.Models.SimpleFin
use billtracker_plugin.Models.Consistent.{IsConsistent}
use billtracker_plugin.Models.Consistent.Accounts.{
  accounts_upsert-IsConsistent, simplefin_get-IsConsistent, simplefin_synced-IsConsistent,
}
use billtracker_plugin.Scheduler.{store_accounts, sync_failed, refresh_simplefin_now}

-- A property of the tables that reading the connection, storing an account and marking the sync
-- all keep is kept by the refresh.
module _ (P : Tables → Type 0) (gcm : Aead) (fetch_accounts : Bytes → Result (List Synced))
    (clock : Clock) (get_keeps : Keeps P SimpleFin.get)
    (upsert_keeps : (s : Synced) → Keeps P (Accounts.upsert clock.now s))
    (mark_keeps : (id : ℕ) (e : Option Error)
      → Keeps P (SimpleFin.mark_synced clock.now id e)) where
  store_accounts-Keeps : (xs : List Synced) → Keeps P (store_accounts clock.now xs)
  unfolding store_accounts
  store_accounts-Keeps [] = Keeps-pure tt
  store_accounts-Keeps (x ∷ xs) = Keeps-ignoring _ _ (upsert_keeps x) (store_accounts-Keeps xs)

  sync_failed-Keeps :
      (conn : SimpleFinConnection) (e : Error)
      → Keeps P (sync_failed gcm fetch_accounts clock conn e)
  sync_failed-Keeps conn e = Keeps-ignoring _ _ (mark_keeps conn.id (some e)) (Keeps-pure tt)

  refresh-Keeps : Keeps P (refresh_simplefin_now gcm fetch_accounts clock)
  unfolding refresh_simplefin_now
  refresh-Keeps =
      Keeps-attempt _ _ _ get_keeps (λ _. Keeps-pure tt)
        λ conn.
          Keeps-attempt _ _ _ (Keeps-lift (decrypt gcm conn.encrypted_access_url))
            (sync_failed-Keeps conn)
            λ url.
              Keeps-attempt _ _ _ (Keeps-lift (fetch_accounts url)) (sync_failed-Keeps conn)
                λ accounts.
                  Keeps-ignoring _ _ (store_accounts-Keeps accounts)
                    (Keeps-ignoring _ _ (mark_keeps conn.id none) (Keeps-pure tt))

pub refresh_simplefin_now-IsConsistent :
    (gcm : Aead) (fetch_accounts : Bytes → Result (List Synced)) (clock : Clock)
    → Keeps IsConsistent (refresh_simplefin_now gcm fetch_accounts clock)
refresh_simplefin_now-IsConsistent gcm fetch_accounts clock =
    refresh-Keeps IsConsistent gcm fetch_accounts clock simplefin_get-IsConsistent
      (accounts_upsert-IsConsistent clock.now) (simplefin_synced-IsConsistent clock.now)

-- What people set of an account: its label and whether it is shown.
abbrev pub chosen : Account → Bytes × Option Bytes × Bool
chosen a = (a.simplefin_id, a.display_name, a.visible)

-- The choices of `old` still stand, before those of accounts that were not there.
abbrev pub ChoicesStand : List Account → Tables → Type 0
ChoicesStand old t =
    (new : List (Bytes × Option Bytes × Bool)) × (map chosen t.accounts ≡ map chosen old ++ new)

map-update :
    {A B : Type 0} (f : A → B) (p : A → Bool) (g : A → A) (xs : List A)
    → ((x : A) → f (g x) ≡ f x)
    → map f (update p g xs) ≡ map f xs
map-update f p g [] same_f = refl
map-update f p g (x ∷ xs) same_f = elim (Bool-cases (p x)) [
  | inl e ↦ rw (e, same_f x, map-update f p g xs same_f)
  | inr e ↦ rw (e, map-update f p g xs same_f)
]

map-append : {A B : Type 0} (f : A → B) (xs ys : List A) → map f (xs ++ ys) ≡ map f xs ++ map f ys
map-append f [] ys = refl
map-append f (x ∷ xs) ys = ap (λ zs. f x ∷ zs) (map-append f xs ys)

module _ (old : List Account) where
  upsert-ChoicesStand :
      (now : Instant) (s : Synced) → Keeps (ChoicesStand old) (Accounts.upsert now s)
  unfolding Accounts.upsert
  upsert-ChoicesStand now s = Keeps-statement _ λ t (new, h).
      elim (Bool-cases (exists (λ a. same a.simplefin_id s.simplefin_id) t.accounts)) [
        | inl e ↦ (new, rw e (map-update chosen _ (resynced now s) t.accounts (λ _. refl) ∙ h))
        | inr e ↦ (
          new ++ chosen (first_synced t.next_account now s) ∷ [],
          rw e (
              map-append chosen t.accounts _
              ∙ ap (λ xs. xs ++ chosen (first_synced t.next_account now s) ∷ []) h
              ∙ append_assoc (map chosen old) new _),
        )
      ]

  get-ChoicesStand : Keeps (ChoicesStand old) SimpleFin.get
  unfolding SimpleFin.get
  get-ChoicesStand = Keeps-statement _ λ t h. h

  synced-ChoicesStand :
      (now : Instant) (id : ℕ) (e : Option Error)
      → Keeps (ChoicesStand old) (SimpleFin.mark_synced now id e)
  unfolding SimpleFin.mark_synced
  synced-ChoicesStand now id e = Keeps-statement _ λ t h. h

-- A refresh keeps the label and the visibility of every account, in their order, and adds accounts
-- behind them only, whatever the bridge answers and the database fails.
pub refresh_simplefin_now_keeps_choices :
    (gcm : Aead) (fetch_accounts : Bytes → Result (List Synced)) (clock : Clock) (db : Db)
    → ChoicesStand db.tables.accounts (refresh_simplefin_now gcm fetch_accounts clock db).1.tables
refresh_simplefin_now_keeps_choices gcm fetch_accounts clock db =
    let old = db.tables.accounts in
    (refresh-Keeps (ChoicesStand old) gcm fetch_accounts clock (get-ChoicesStand old)
        (upsert-ChoicesStand old clock.now) (synced-ChoicesStand old clock.now)).at
      db ([], rw append-nil)
