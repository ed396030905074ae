-- ===== src/Handlers/Bootstrap/Removal.antt =====
-- Which bills the removal pass of `BootstrapBills` deletes.
use billtracker_plugin.Base.{
  ℕ, ◌≡◌, refl, ap, ◌∙◌, sym, Bool, true, false, not, ◌&&◌, Option, List, [], ◌∷◌, Bytes, select,
  exists, ◌==◌, Bool-cases, inl, inr, if◌then◌else◌,
}
use billtracker_plugin.Base.Int.{ℤ, pos, id_is}
use billtracker_plugin.Errors.{Result}
use billtracker_plugin.Clock.{Clock}
use billtracker_plugin.Connectors.{Registry}
use billtracker_plugin.Crypto.{Aead}
use billtracker_plugin.Schedule.{BillDefinition}
use billtracker_plugin.Models.Rows.{Tables}
use billtracker_plugin.Models.Database.{Db, Exec, pure, statement}
use billtracker_plugin.Models.Database.Quiet.{quiet, ignoring_runs}
use billtracker_plugin.Models.Bills
use billtracker_plugin.Models.Bills.{without_definition}
use billtracker_plugin.Handlers.Bootstrap.{remove_unseen}

module _ {A : Type 0} where
  select_everything : (xs : List A) → select (λ x. true) xs ≡ xs
  select_everything [] = refl
  select_everything (x ∷ xs) = ap (λ ys. x ∷ ys) (select_everything xs)

  -- Two selections in a row are one by both tests.
  select_twice :
      (p q r : A → Bool) (xs : List A)
      → ((x : A) → (q x && p x) ≡ r x)
      → select p (select q xs) ≡ select r xs
  select_twice p q r [] both = refl
  select_twice p q r (x ∷ xs) both = elim (Bool-cases (q x)) [
    | inl e ↦ rw (e, ← both x, e, select_twice p q r xs both)
    | inr e ↦ rw (e, ← both x, e) (select_twice p q r xs both)
  ]

not_either : (a b : Bool) → (not a && not b) ≡ not (if a then true else b)
not_either true b = refl
not_either false b = refl

-- A bill that bills.json manages but no longer lists.
abbrev pub is_unlisted : (Bytes → Bool) → BillDefinition → Bool
is_unlisted listed d = d.bootstrap_managed && not (listed d.name)

-- Whether the number is the id of such a bill.
abbrev pub is_doomed : (Bytes → Bool) → List BillDefinition → ℕ → Bool
is_doomed listed ds k = exists (λ d. is_unlisted listed d && d.id == k) ds

module _ (read_file : Bytes → Option Bytes) (gcm : Aead) (random : Bytes → Option Bytes)
    (registry : Registry) (clock : Clock) (minutes days : ℤ) (listed : Bytes → Bool) where
  abbrev removal : List BillDefinition → Exec (Unit {0})
  removal = remove_unseen read_file gcm random registry clock minutes days listed

  delete_first :
      (d : BillDefinition) (ds : List BillDefinition) (t : Tables)
      → is_unlisted listed d ≡ true
      → removal (d ∷ ds) (quiet t) ≡ removal ds (quiet (without_definition (id_is (pos d.id)) t))
  unfolding remove_unseen Bills.delete statement
  delete_first d ds t e = rw e (ignoring_runs _ _ _)

  keep_first :
      (d : BillDefinition) (ds : List BillDefinition) (t : Tables)
      → is_unlisted listed d ≡ false
      → removal (d ∷ ds) (quiet t) ≡ removal ds (quiet t)
  unfolding remove_unseen
  keep_first d ds t e = rw e

  -- On a database that fails nothing, the removal pass over a list of bills deletes just the
  -- definitions with the id of a bill of the list that bills.json manages and no longer lists, and
  -- leaves the others as they are and in their places.
  pub remove_unseen_removes :
      (ds : List BillDefinition) (t : Tables)
      → (remove_unseen read_file gcm random registry clock minutes days listed ds
          (quiet t)).1.tables.bill_definitions
        ≡ select (λ d. not (is_doomed listed ds d.id)) t.bill_definitions
  remove_unseen_removes [] t =
      unfold remove_unseen pure in sym (select_everything t.bill_definitions)
  remove_unseen_removes (d ∷ ds) t = elim (Bool-cases (is_unlisted listed d)) [
    | inl e ↦
        ap (λ (x : Result (Unit {0}) × Db). x.1.tables.bill_definitions) (delete_first d ds t e)
        ∙ remove_unseen_removes ds (without_definition (id_is (pos d.id)) t)
        ∙ select_twice _ _ _ t.bill_definitions
            (λ x. rw e (not_either (d.id == x.id) (is_doomed listed ds x.id)))
    | inr e ↦
        ap (λ (x : Result (Unit {0}) × Db). x.1.tables.bill_definitions) (keep_first d ds t e)
        ∙ rw e (remove_unseen_removes ds t)
  ]
