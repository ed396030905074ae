-- ===== src/Models/Consistent/Bills.antt =====
-- The stores of bill definitions and of instances keep the tables consistent.
use billtracker_plugin.Base.{
  ℕ, suc, ◌<◌, ◌≡◌, refl, Bool, true, false, not, ◌&&◌, List, [], ◌∷◌, arith, Bool-cases, inl, inr,
  All, All-append, All-select, All-update, All-imp, Distinct-concat, Distinct-select,
  Distinct-update, exists, exists-none, exists-update, update-nothing, exists-select,
  exists-append_left, select, Bytes, ◌==◌, ==_iff,
}
use billtracker_plugin.Base.Int.{ℤ, id_is, fits_int4}
use billtracker_plugin.Schedule.{BillDefinition}
use billtracker_plugin.Models.Rows.{Tables, row_allowed}
use billtracker_plugin.Models.Database.Keeps.{Keeps, Keeps-statement}
use billtracker_plugin.Models.Bills.{
  list_all, get_by_id, get_by_name, create, with_definition, edited, edited_bootstrap,
  set_definitions, update_bill, update_bootstrap, update_amount, without_definition, delete,
  checked_update,
}
use billtracker_plugin.Models.Instances.{has_key}
use billtracker_plugin.Models.Consistent.{IsConsistent, has_bill, at_if}

pub list_all-IsConsistent : Keeps IsConsistent list_all
unfolding list_all
list_all-IsConsistent = Keeps-statement _ (λ t c. c)

pub get_by_id-IsConsistent : (i : ℤ) → Keeps IsConsistent (get_by_id i)
unfolding get_by_id
get_by_id-IsConsistent i = Keeps-statement _ (λ t c. c)

pub get_by_name-IsConsistent : (name : Bytes) → Keeps IsConsistent (get_by_name name)
unfolding get_by_name
get_by_name-IsConsistent name = Keeps-statement _ (λ t c. c)

next_definition-IsConsistent :
    (t : Tables)
    → IsConsistent t
    → IsConsistent (record t { next_definition = suc t.next_definition })
next_definition-IsConsistent t c = record {
  definition_ids = c.definition_ids;
  definition_bound =
      All-imp (λ d. d.id < t.next_definition) _ (λ d h. omega arith) c.definition_bound;
  definitions_allowed = c.definitions_allowed;
  instance_ids = c.instance_ids;
  instance_bound = c.instance_bound;
  instance_keys = c.instance_keys;
  instance_bills = c.instance_bills;
  vendor_keys = c.vendor_keys;
  vendor_bills = c.vendor_bills;
  account_keys = c.account_keys;
  one_connection = c.one_connection;
}

with_definition-IsConsistent :
    (b : BillDefinition) (t : Tables)
    → row_allowed b ≡ true
    → IsConsistent t
    → IsConsistent (with_definition b t)
unfolding row_allowed
with_definition-IsConsistent b t h c = record {
  definition_ids =
      Distinct-concat (λ a b. (a.id == b.id) ≡ false) _ _ c.definition_ids
        (All-imp (λ d. d.id < t.next_definition) _ (λ d lt. ground arith) c.definition_bound);
  definition_bound =
      All-append (λ d. d.id < suc t.next_definition) _ _
        (All-imp (λ d. d.id < t.next_definition) _ (λ d h. omega arith) c.definition_bound)
        (omega arith, tt);
  definitions_allowed = All-append (λ d. row_allowed d ≡ true) _ _ c.definitions_allowed (h, tt);
  instance_ids = c.instance_ids;
  instance_bound = c.instance_bound;
  instance_keys = c.instance_keys;
  instance_bills =
      All-imp (λ i. has_bill i.bill_definition_id t ≡ true) _
        (λ i e. exists-append_left _ t.bill_definitions _ e) c.instance_bills;
  vendor_keys = c.vendor_keys;
  vendor_bills =
      All-imp (λ i. has_bill i.bill_definition_id t ≡ true) _
        (λ i e. exists-append_left _ t.bill_definitions _ e) c.vendor_bills;
  account_keys = c.account_keys;
  one_connection = c.one_connection;
}

pub create-IsConsistent : (b : BillDefinition) → Keeps IsConsistent (create b)
unfolding create
create-IsConsistent b = Keeps-statement _ (λ t c.
    at_if IsConsistent (row_allowed b) _ _ (λ h. with_definition-IsConsistent b t h c)
      (λ _. next_definition-IsConsistent t c))

-- An UPDATE of definitions that keeps their ids, and whose rows are allowed.
pub set_definitions-IsConsistent :
    (p : ℕ → Bool) (f : BillDefinition → BillDefinition) (t : Tables)
    → ((d : BillDefinition) → (f d).id ≡ d.id)
    → ((d : BillDefinition) → p d.id ≡ true → row_allowed d ≡ true → row_allowed (f d) ≡ true)
    → IsConsistent t
    → IsConsistent (set_definitions p f t)
set_definitions-IsConsistent p f t same_id allowed c = record {
  definition_ids =
      Distinct-update (λ a b. (a.id == b.id) ≡ false) _ f (λ x y e. rw same_id e)
        (λ x y e. rw same_id e) _ c.definition_ids;
  definition_bound =
      All-update (λ d. d.id < t.next_definition) _ f _ (λ d _ e. rw same_id e) c.definition_bound;
  definitions_allowed = All-update (λ d. row_allowed d ≡ true) _ f _ allowed c.definitions_allowed;
  instance_ids = c.instance_ids;
  instance_bound = c.instance_bound;
  instance_keys = c.instance_keys;
  instance_bills =
      All-imp (λ i. has_bill i.bill_definition_id t ≡ true) _ (λ i e. still i.bill_definition_id e)
        c.instance_bills;
  vendor_keys = c.vendor_keys;
  vendor_bills =
      All-imp (λ v. has_bill v.bill_definition_id t ≡ true) _ (λ v e. still v.bill_definition_id e)
        c.vendor_bills;
  account_keys = c.account_keys;
  one_connection = c.one_connection;
}
  where
    still : (k : ℕ) → has_bill k t ≡ true → has_bill k (set_definitions p f t) ≡ true
    still k e =
        rw (exists-update (λ d. d.id == k) (λ d. p d.id) f t.bill_definitions (λ d. rw same_id)) e

and_left : (a b : Bool) → (a && b) ≡ true → a ≡ true
and_left true b h = refl
and_left false b h = cc

and_right : (a b : Bool) → (a && b) ≡ true → b ≡ true
and_right true b h = h
and_right false b h = cc

-- The UPDATE that refuses rows which its CHECK constraints do not allow.
checked_update-IsConsistent :
    (p : ℕ → Bool) (allowed : Bool) (f : BillDefinition → BillDefinition) (t : Tables)
    → ((d : BillDefinition) → (f d).id ≡ d.id)
    → ((d : BillDefinition) → allowed ≡ true → row_allowed d ≡ true → row_allowed (f d) ≡ true)
    → IsConsistent t
    → IsConsistent (checked_update p allowed f t).1
checked_update-IsConsistent p true f t same_id h c =
    at_if IsConsistent (exists (λ d. p d.id) t.bill_definitions && false) _ _ (λ _. c)
      (λ _. set_definitions-IsConsistent p f t same_id (λ d _. h d refl) c)
checked_update-IsConsistent p false f t same_id h c =
    at_if IsConsistent (exists (λ d. p d.id) t.bill_definitions && true) _ _ (λ _. c)
      (λ e.
        rw
          (update-nothing (λ d. p d.id) f t.bill_definitions
            (exists-none (λ d. p d.id) t.bill_definitions (none_there _ e)))
          c)
  where
    none_there : (b : Bool) → (b && true) ≡ false → b ≡ false
    none_there true e = cc
    none_there false e = refl

pub update_bill-IsConsistent : (i : ℤ) (b : BillDefinition) → Keeps IsConsistent (update_bill i b)
unfolding update_bill row_allowed
update_bill-IsConsistent i b = Keeps-statement _ (λ t c.
    checked_update-IsConsistent (id_is i) (row_allowed b) (edited b) t (λ d. refl) (λ d a _. a) c)

pub update_bootstrap-IsConsistent :
    (i : ℕ) (b : BillDefinition) → Keeps IsConsistent (update_bootstrap i b)
unfolding update_bootstrap row_allowed
update_bootstrap-IsConsistent i b = Keeps-statement _ (λ t c.
    checked_update-IsConsistent (λ k. k == i) (row_allowed b) (edited_bootstrap b) t (λ d. refl)
      (λ d a _. a) c)

amount_allowed :
    (cents : ℤ) (d : BillDefinition)
    → fits_int4 cents ≡ true
    → row_allowed d ≡ true
    → row_allowed (record d { amount_cents = cents }) ≡ true
unfolding row_allowed
amount_allowed cents d a h = rw a (and_right (fits_int4 d.amount_cents) _ h)

pub update_amount-IsConsistent : (i : ℕ) (cents : ℤ) → Keeps IsConsistent (update_amount i cents)
unfolding update_amount
update_amount-IsConsistent i cents = Keeps-statement _ (λ t c.
    checked_update-IsConsistent (λ k. k == i) (fits_int4 cents) _ t (λ d. refl)
      (amount_allowed cents) c)

-- A bill that is not deleted is still there.
has_bill-without :
    (p : ℕ → Bool) (t : Tables) (k : ℕ)
    → p k ≡ false
    → has_bill k t ≡ true
    → has_bill k (without_definition p t) ≡ true
has_bill-without p t k e h =
    exists-select (λ d. d.id == k) (λ d. not (p d.id)) t.bill_definitions
      (λ d q. kept d ((==_iff d.id k).0 q)) h
  where
    kept : (d : BillDefinition) → d.id ≡ k → not (p d.id) ≡ true
    kept d q = rw (q, e)

-- Rows that refer to a bill, after the cascade.
cascade :
    {A : Type 0} (bill : A → ℕ) (p : ℕ → Bool) (t : Tables) (xs : List A)
    → All (λ x. has_bill (bill x) t ≡ true) xs
    → All
        (λ x. has_bill (bill x) (without_definition p t) ≡ true)
        (select (λ x. not (p (bill x))) xs)
cascade bill p t [] h = tt
cascade bill p t (x ∷ xs) h = elim (Bool-cases (p (bill x))) [
  | inl e ↦ rw e (cascade bill p t xs h.1)
  | inr e ↦ rw e (has_bill-without p t (bill x) e h.0, cascade bill p t xs h.1)
]

pub without_definition-IsConsistent :
    (p : ℕ → Bool) (t : Tables) → IsConsistent t → IsConsistent (without_definition p t)
without_definition-IsConsistent p t c = record {
  definition_ids = Distinct-select (λ a b. (a.id == b.id) ≡ false) _ _ c.definition_ids;
  definition_bound = All-select (λ d. d.id < t.next_definition) _ _ c.definition_bound;
  definitions_allowed = All-select (λ d. row_allowed d ≡ true) _ _ c.definitions_allowed;
  instance_ids = Distinct-select (λ a b. (a.id == b.id) ≡ false) _ _ c.instance_ids;
  instance_bound = All-select (λ i. i.id < t.next_instance) _ _ c.instance_bound;
  instance_keys =
      Distinct-select (λ a b. has_key b.bill_definition_id b.due_date a ≡ false) _ _
        c.instance_keys;
  instance_bills = cascade (λ i. i.bill_definition_id) p t t.bill_instances c.instance_bills;
  vendor_keys =
      Distinct-select (λ a b. (a.bill_definition_id == b.bill_definition_id) ≡ false) _ _
        c.vendor_keys;
  vendor_bills = cascade (λ v. v.bill_definition_id) p t t.vendor_connections c.vendor_bills;
  account_keys = c.account_keys;
  one_connection = c.one_connection;
}

pub delete-IsConsistent : (i : ℤ) → Keeps IsConsistent (delete i)
unfolding delete
delete-IsConsistent i = Keeps-statement _ (λ t c. without_definition-IsConsistent (id_is i) t c)
