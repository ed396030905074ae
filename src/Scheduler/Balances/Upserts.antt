-- ===== src/Scheduler/Balances/Upserts.antt =====
-- The loop that stores the accounts of a sync: what it leaves in the rows.
use billtracker_plugin.Base.{
  suc, ◌≡◌, refl, ap, ◌∙◌, Bool, true, false, some, List, [], ◌∷◌, ◌++◌, All, Any, Any-append_right,
  Distinct, exists, update, same, same_sound, if◌then◌else◌, Bool-cases, inl, inr,
}
use billtracker_plugin.Errors.{ok}
use billtracker_plugin.Models.Rows.{Instant, Account, Tables}
use billtracker_plugin.Models.Database.{statement, pure}
use billtracker_plugin.Models.Database.Quiet.{quiet, ignoring_runs}
use billtracker_plugin.Models.Accounts
use billtracker_plugin.Models.Accounts.{Synced, resynced, first_synced}
use billtracker_plugin.Scheduler.{store_accounts}

-- An account's row shows what was synced of it, at that time.
pub record Shows (now : Instant) (s : Synced) (a : Account) : Type 0 where
  pub same_id : a.simplefin_id ≡ s.simplefin_id
  pub org : a.org_name ≡ s.org_name
  pub name : a.name ≡ s.name
  pub currency : a.currency ≡ s.currency
  pub balance : a.balance_cents ≡ s.balance_cents
  pub available : a.available_balance_cents ≡ s.available_balance_cents
  pub synced : a.last_synced_at ≡ some now

abbrev pub IsShown : Instant → Synced → Tables → Type 0
IsShown now s t = Any (Shows now s) t.accounts

abbrev pub Apart : Synced → Synced → Type 0
Apart s s' = same s.simplefin_id s'.simplefin_id ≡ false

-- The tables after one upsert, and after several.
abbrev upserted : Instant → Synced → Tables → Tables
upserted now s t = record t {
  accounts =
      if exists (λ a. same a.simplefin_id s.simplefin_id) t.accounts
      then update (λ a. same a.simplefin_id s.simplefin_id) (resynced now s) t.accounts
      else t.accounts ++ first_synced t.next_account now s ∷ [];
  next_account = suc t.next_account;
}

abbrev pub stored : Instant → List Synced → Tables → Tables
stored now [] t = t
stored now (s ∷ rest) t = stored now rest (upserted now s t)

module _ {A : Type 0} (p : A → Bool) (f : A → A) (Q : A → Type 0) where
  Any-update_there :
      (xs : List A) → exists p xs ≡ true → ((x : A) → p x ≡ true → Q (f x)) → Any Q (update p f xs)
  Any-update_there [] h made = cc
  Any-update_there (x ∷ xs) h made = elim (Bool-cases (p x)) [
    | inl e ↦ inl (rw e (made x e))
    | inr e ↦ inr (Any-update_there xs (rw e at h) made)
  ]

  Any-update_else : (xs : List A) → ((x : A) → Q x → p x ≡ false) → Any Q xs → Any Q (update p f xs)
  Any-update_else [] apart h = elim h [ ]
  Any-update_else (x ∷ xs) apart (inl q) = inl (rw (apart x q) q)
  Any-update_else (x ∷ xs) apart (inr more) = inr (Any-update_else xs apart more)

Any-append_left : {A : Type 0} (Q : A → Type 0) (xs ys : List A) → Any Q xs → Any Q (xs ++ ys)
Any-append_left Q [] ys h = elim h [ ]
Any-append_left Q (x ∷ xs) ys (inl q) = inl q
Any-append_left Q (x ∷ xs) ys (inr more) = inr (Any-append_left Q xs ys more)

module _ (now : Instant) where
  upserted-shows : (s : Synced) (t : Tables) → IsShown now s (upserted now s t)
  upserted-shows s t =
      elim (Bool-cases (exists (λ a. same a.simplefin_id s.simplefin_id) t.accounts)) [
        | inl e ↦ rw e (
            Any-update_there _ (resynced now s) (Shows now s) t.accounts e (λ a h. record {
              same_id = same_sound a.simplefin_id s.simplefin_id h;
              org = refl;
              name = refl;
              currency = refl;
              balance = refl;
              available = refl;
              synced = refl;
            }))
        | inr e ↦ rw e (
            Any-append_right (Shows now s) t.accounts _ (
              inl (record {
                same_id = refl;
                org = refl;
                name = refl;
                currency = refl;
                balance = refl;
                available = refl;
                synced = refl;
              })))
      ]

  upserted-keeps :
      (s other : Synced) (t : Tables)
      → Apart s other
      → IsShown now s t
      → IsShown now s (upserted now other t)
  upserted-keeps s other t apart h =
      elim (Bool-cases (exists (λ a. same a.simplefin_id other.simplefin_id) t.accounts)) [
        | inl e ↦ rw e (
            Any-update_else _ (resynced now other) (Shows now s) t.accounts
              (λ a shows. ap (λ k. same k other.simplefin_id) shows.same_id ∙ apart) h)
        | inr e ↦ rw e (Any-append_left (Shows now s) t.accounts _ h)
      ]

  stored-keeps :
      (s : Synced) (rest : List Synced) (t : Tables)
      → All (Apart s) rest
      → IsShown now s t
      → IsShown now s (stored now rest t)
  stored-keeps s [] t apart h = h
  stored-keeps s (x ∷ rest) t (a, apart) h =
      stored-keeps s rest (upserted now x t) apart (upserted-keeps s x t a h)

  pub stored-shows :
      (xs : List Synced) (t : Tables)
      → Distinct Apart xs
      → All (λ s. IsShown now s (stored now xs t)) xs
  stored-shows [] t d = tt
  stored-shows (x ∷ rest) t d = (
    stored-keeps x rest (upserted now x t) d.0 (upserted-shows x t),
    stored-shows rest (upserted now x t) d.1,
  )

  pub store_accounts-quiet :
      (xs : List Synced) (t : Tables)
      → store_accounts now xs (quiet t) ≡ (ok tt, quiet (stored now xs t))
  unfolding store_accounts Accounts.upsert statement pure
  store_accounts-quiet [] t = refl
  store_accounts-quiet (x ∷ xs) t =
      ignoring_runs (Accounts.upsert now x) (store_accounts now xs) (quiet t)
      ∙ store_accounts-quiet xs (upserted now x t)
