-- ===== src/Handlers/Bootstrap/HandMade.antt =====
-- What `BootstrapBills` does to the bills that people made on the settings page: nothing.
pub mod Kept
pub mod Numbers
pub mod Whole
use billtracker_plugin.Base.{
  ℕ, ◌<◌, ◌≡◌, refl, ap, sym, ◌∙◌, Bool, true, false, not, ◌&&◌, ◌||◌, Option, some, none, List, [],
  ◌∷◌, ◌++◌, Bytes, same, is_empty, select, first, update, exists, All, Distinct, ◌==◌, ==_iff,
  Bool-cases, inl, inr, arith, if◌then◌else◌,
}
use billtracker_plugin.Base.Int.{ℤ, pos, id_is}
use billtracker_plugin.Errors.{Error, Result, ok, err, bill_not_found, db_failure}
use billtracker_plugin.Calendar.{Date}
use billtracker_plugin.Clock.{Clock}
use billtracker_plugin.Connectors.{Registry, BillSnapshot}
use billtracker_plugin.Crypto.{Aead, encrypt}
use billtracker_plugin.Schedule.{BillDefinition}
use billtracker_plugin.Models.Rows.{Tables, VendorConnection, Instant}
use billtracker_plugin.Models.Database.{Db, Exec, pure, attempt, statement}
use billtracker_plugin.Models.Database.Keeps.{
  Keeps, Keeps-statement, Keeps-attempt, Keeps-ignoring, Keeps-bind, Keeps-pure, Keeps-lift,
  Keeps-if, keeps_rules,
}
use billtracker_plugin.Models.Bills
use billtracker_plugin.Models.Bills.{set_definitions, checked_update}
use billtracker_plugin.Models.Vendors
use billtracker_plugin.Models.Vendors.{Login, upsert_query}
use billtracker_plugin.Models.Instances.{ensure_instance}
use billtracker_plugin.Models.Instances.Ensure.{definitions-ensure_query}
use billtracker_plugin.Models.Consistent.{IsConsistent, at_if}
use billtracker_plugin.Scheduler.{done, ensure_all, generate_instances_for}

abbrev pub by_hand : BillDefinition → Bool
by_hand d = not d.bootstrap_managed

-- The bills that bills.json does not manage are `ours`.
abbrev pub HandMade : List BillDefinition → Tables → Type 0
HandMade ours t = select by_hand t.bill_definitions ≡ ours

-- No bill of `ours` has the number.
abbrev pub Unused : ℕ → List BillDefinition → Type 0
Unused k ours = exists (λ d. d.id == k) ours ≡ false

-- What is unused by a list is not the number of its head, and unused by its tail.
parts_differ :
    (k : ℕ) (x : BillDefinition) (ds : List BillDefinition)
    → Unused k (x ∷ ds)
    → ((x.id == k) ≡ false) × Unused k ds
parts_differ k x ds h = elim (Bool-cases (x.id == k)) [
  | inl e ↦ cc (rw e at h)
  | inr e ↦ (e, rw e at h)
]

module _ (k : ℕ) (p : ℕ → Bool) (only : (j : ℕ) → (j == k) ≡ false → p j ≡ false) where
  select-update :
      (f : BillDefinition → BillDefinition) (ds : List BillDefinition)
      → ((d : BillDefinition) → (f d).bootstrap_managed ≡ d.bootstrap_managed)
      → Unused k (select by_hand ds)
      → select by_hand (update (λ d. p d.id) f ds) ≡ select by_hand ds
  select-update f [] same_flag h = refl
  select-update f (x ∷ ds) same_flag h = elim (Bool-cases x.bootstrap_managed) [
    | inl e ↦ elim (Bool-cases (p x.id)) [
      | inl hit ↦ rw (hit, same_flag x, e) (select-update f ds same_flag (rw e at h))
      | inr miss ↦ rw (miss, e) (select-update f ds same_flag (rw e at h))
    ]
    | inr e ↦
        let (apart, rest) = parts_differ k x (select by_hand ds) (rw e at h) in
        let ours : by_hand x ≡ true = rw e refl in
        rw (only x.id apart, ours) (ap (λ ys. x ∷ ys) (select-update f ds same_flag rest))
  ]

  keeps_without :
      (ds : List BillDefinition)
      → Unused k (select by_hand ds)
      → select by_hand (select (λ d. not (p d.id)) ds) ≡ select by_hand ds
  keeps_without [] h = refl
  keeps_without (x ∷ ds) h = elim (Bool-cases x.bootstrap_managed) [
    | inl e ↦ elim (Bool-cases (p x.id)) [
      | inl hit ↦ rw (hit, e) (keeps_without ds (rw e at h))
      | inr miss ↦ rw (miss, e) (keeps_without ds (rw e at h))
    ]
    | inr e ↦
        let (apart, rest) = parts_differ k x (select by_hand ds) (rw e at h) in
        let ours : by_hand x ≡ true = rw e refl in
        rw (only x.id apart, ours) (ap (λ ys. x ∷ ys) (keeps_without ds rest))
  ]

flipped : (k j : ℕ) → (j == k) ≡ false → (k == j) ≡ false
flipped k j h = ground arith

definitions-upsert_query :
    (l : Login) (t : Tables) → (upsert_query l t).1.bill_definitions ≡ t.bill_definitions
definitions-upsert_query l t = elim (Bool-cases known) [
  | inl e ↦ rw e refl
  | inr e ↦ elim (Bool-cases (exists (λ d. d.id == l.bill_definition_id) t.bill_definitions)) [
    | inl b ↦ rw (e, b) refl
    | inr b ↦ rw (e, b) refl
  ]
]
  where
    known : Bool
    known = exists (λ v. v.bill_definition_id == l.bill_definition_id) t.vendor_connections

module _ (ours : List BillDefinition) where
  set_definitions-HandMade :
      (k : ℕ) (f : BillDefinition → BillDefinition) (t : Tables)
      → ((d : BillDefinition) → (f d).bootstrap_managed ≡ d.bootstrap_managed)
      → Unused k ours
      → HandMade ours t
      → HandMade ours (set_definitions (λ j. j == k) f t)
  set_definitions-HandMade k f t same_flag free h =
      select-update k (λ j. j == k) (λ j e. e) f t.bill_definitions same_flag (rw h free) ∙ h

  checked_update-HandMade :
      (k : ℕ) (allowed : Bool) (f : BillDefinition → BillDefinition)
      → ((d : BillDefinition) → (f d).bootstrap_managed ≡ d.bootstrap_managed)
      → Unused k ours
      → Keeps (HandMade ours) (statement (checked_update (λ j. j == k) allowed f))
  checked_update-HandMade k allowed f same_flag free = Keeps-statement _ (λ t h.
      at_if (HandMade ours) (exists (λ d. d.id == k) t.bill_definitions && not allowed)
        (err db_failure, t) (ok tt, set_definitions (λ j. j == k) f t) (λ _. h)
        (λ _. set_definitions-HandMade k f t same_flag free h))

  pub update_amount-HandMade :
      (k : ℕ) (cents : ℤ) → Unused k ours → Keeps (HandMade ours) (Bills.update_amount k cents)
  unfolding Bills.update_amount
  update_amount-HandMade k cents free = checked_update-HandMade k _ _ (λ d. refl) free

  pub update_bootstrap-HandMade :
      (k : ℕ) (b : BillDefinition)
      → Unused k ours
      → Keeps (HandMade ours) (Bills.update_bootstrap k b)
  unfolding Bills.update_bootstrap
  update_bootstrap-HandMade k b free = checked_update-HandMade k _ _ (λ d. refl) free

  pub delete-HandMade : (k : ℕ) → Unused k ours → Keeps (HandMade ours) (Bills.delete (pos k))
  unfolding Bills.delete
  delete-HandMade k free =
      Keeps-statement _
        (λ t h. keeps_without k (λ j. k == j) (flipped k) t.bill_definitions (rw h free) ∙ h)

  pub ensure_instance-HandMade :
      (k : ℕ) (due : Date) → Keeps (HandMade ours) (ensure_instance k due)
  unfolding ensure_instance
  ensure_instance-HandMade k due =
      Keeps-statement _ (λ t h. ap (λ ds. select by_hand ds) (definitions-ensure_query k due t) ∙ h)

  ensure_all-HandMade : (k : ℕ) (dues : List Date) → Keeps (HandMade ours) (ensure_all k dues)
  unfolding ensure_all
  ensure_all-HandMade k [] = search keeps_rules
  ensure_all-HandMade k (due ∷ dues) =
      Keeps-bind _ _ (ensure_instance-HandMade k due) (λ _. ensure_all-HandMade k dues)

  pub generate_instances_for-HandMade :
      (clock : Clock) (def : BillDefinition) (days : ℤ)
      → Keeps (HandMade ours) (generate_instances_for clock def days)
  unfolding generate_instances_for
  generate_instances_for-HandMade clock def days = ensure_all-HandMade def.id _

  pub vendors_upsert-HandMade : (l : Login) → Keeps (HandMade ours) (Vendors.upsert l)
  unfolding Vendors.upsert
  vendors_upsert-HandMade l =
      Keeps-statement _ (λ t h. ap (λ ds. select by_hand ds) (definitions-upsert_query l t) ∙ h)

  pub mark_synced-HandMade :
      (now : Instant) (k : ℕ) (number : Bytes) (e : Option Error)
      → Keeps (HandMade ours) (Vendors.mark_synced now k number e)
  unfolding Vendors.mark_synced
  mark_synced-HandMade now k number e = Keeps-statement _ (λ t h. h)
