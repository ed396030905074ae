-- ===== src/Models/Consistent/Instances.antt =====
-- The stores of bill instances and of vendor connections keep the tables consistent.
use billtracker_plugin.Base.{
  ℕ, suc, ◌<◌, ◌≡◌, refl, Bool, true, false, Option, List, update, arith, All, All-append,
  All-select, All-update, All-imp, Distinct, Distinct-concat, Distinct-select, Distinct-update,
  exists, exists-none, Bytes, ◌==◌,
}
use billtracker_plugin.Base.Int.{ℤ, id_is}
use billtracker_plugin.Errors.{Error}
use billtracker_plugin.Calendar.{Date}
use billtracker_plugin.Models.Rows.{Instant, BillInstance, VendorConnection, Tables}
use billtracker_plugin.Models.Database.Keeps.{Keeps, Keeps-statement}
use billtracker_plugin.Models.Instances.{
  list_upcoming_unpaid, list_all_for_settings, has_key, with_instance, ensure_instance, paid_now,
  mark_paid,
}
use billtracker_plugin.Models.Vendors
use billtracker_plugin.Models.Vendors.{Login, upsert_query, relogged, synced}
use billtracker_plugin.Models.Consistent.{IsConsistent, has_bill, at_if}

module _ (t : Tables) (c : IsConsistent t) where
  next_instance-IsConsistent : IsConsistent (record t { next_instance = suc t.next_instance })
  next_instance-IsConsistent = record {
    definition_ids = c.definition_ids;
    definition_bound = c.definition_bound;
    definitions_allowed = c.definitions_allowed;
    instance_ids = c.instance_ids;
    instance_bound = All-imp (λ i. i.id < t.next_instance) _ (λ i h. omega arith) c.instance_bound;
    instance_keys = c.instance_keys;
    instance_bills = c.instance_bills;
    vendor_keys = c.vendor_keys;
    vendor_bills = c.vendor_bills;
    account_keys = c.account_keys;
    one_connection = c.one_connection;
  }

  with_instance-IsConsistent :
      (k : ℕ) (due : Date)
      → exists (has_key k due) t.bill_instances ≡ false
      → has_bill k t ≡ true
      → IsConsistent (with_instance k due t)
  with_instance-IsConsistent k due fresh bill = record {
    definition_ids = c.definition_ids;
    definition_bound = c.definition_bound;
    definitions_allowed = c.definitions_allowed;
    instance_ids =
        Distinct-concat (λ a b. (a.id == b.id) ≡ false) _ _ c.instance_ids
          (All-imp (λ i. i.id < t.next_instance) _ (λ i lt. ground arith) c.instance_bound);
    instance_bound =
        All-append (λ i. i.id < suc t.next_instance) _ _
          (All-imp (λ i. i.id < t.next_instance) _ (λ i h. omega arith) c.instance_bound)
          (omega arith, tt);
    instance_keys =
        Distinct-concat (λ a b. has_key b.bill_definition_id b.due_date a ≡ false) _ _
          c.instance_keys (exists-none (has_key k due) t.bill_instances fresh);
    instance_bills =
        All-append (λ i. has_bill i.bill_definition_id t ≡ true) _ _ c.instance_bills (bill, tt);
    vendor_keys = c.vendor_keys;
    vendor_bills = c.vendor_bills;
    account_keys = c.account_keys;
    one_connection = c.one_connection;
  }

  -- An UPDATE of instances that keeps their ids and keys.
  set_instances-IsConsistent :
      (p : BillInstance → Bool) (now : Instant)
      → IsConsistent (record t { bill_instances = update p (paid_now now) t.bill_instances })
  set_instances-IsConsistent p now = record {
    definition_ids = c.definition_ids;
    definition_bound = c.definition_bound;
    definitions_allowed = c.definitions_allowed;
    instance_ids =
        Distinct-update (λ a b. (a.id == b.id) ≡ false) p (paid_now now) (λ x y h. h) (λ x y h. h) _
          c.instance_ids;
    instance_bound = All-update (λ i. i.id < t.next_instance) p _ _ (λ i _ h. h) c.instance_bound;
    instance_keys =
        Distinct-update (λ a b. has_key b.bill_definition_id b.due_date a ≡ false) p (paid_now now)
          (λ x y h. h) (λ x y h. h) _ c.instance_keys;
    instance_bills =
        All-update (λ i. has_bill i.bill_definition_id t ≡ true) p _ _ (λ i _ h. h)
          c.instance_bills;
    vendor_keys = c.vendor_keys;
    vendor_bills = c.vendor_bills;
    account_keys = c.account_keys;
    one_connection = c.one_connection;
  }

  -- Changes to the vendor connections alone.
  vendors-IsConsistent :
      (vs : List VendorConnection) (next : ℕ)
      → Distinct (λ a b. (a.bill_definition_id == b.bill_definition_id) ≡ false) vs
      → All (λ v. has_bill v.bill_definition_id t ≡ true) vs
      → IsConsistent (record t { vendor_connections = vs; next_vendor = next })
  vendors-IsConsistent vs next keys bills = record {
    definition_ids = c.definition_ids;
    definition_bound = c.definition_bound;
    definitions_allowed = c.definitions_allowed;
    instance_ids = c.instance_ids;
    instance_bound = c.instance_bound;
    instance_keys = c.instance_keys;
    instance_bills = c.instance_bills;
    vendor_keys = keys;
    vendor_bills = bills;
    account_keys = c.account_keys;
    one_connection = c.one_connection;
  }

  -- An UPDATE of vendor connections that keeps the bill.
  set_vendors-IsConsistent :
      (p : VendorConnection → Bool) (f : VendorConnection → VendorConnection) (next : ℕ)
      → ((v : VendorConnection) → (f v).bill_definition_id ≡ v.bill_definition_id)
      → IsConsistent
          (record t { vendor_connections = update p f t.vendor_connections; next_vendor = next })
  set_vendors-IsConsistent p f next same_bill =
      vendors-IsConsistent _ next
        (Distinct-update (λ a b. (a.bill_definition_id == b.bill_definition_id) ≡ false) p f
          (λ x y h. rw same_bill h) (λ x y h. rw same_bill h) _ c.vendor_keys)
        (All-update (λ v. has_bill v.bill_definition_id t ≡ true) p f _ (λ v _ h. rw same_bill h)
          c.vendor_bills)

pub list_upcoming_unpaid-IsConsistent : (to : Date) → Keeps IsConsistent (list_upcoming_unpaid to)
unfolding list_upcoming_unpaid
list_upcoming_unpaid-IsConsistent to = Keeps-statement _ (λ t c. c)

pub list_all_for_settings-IsConsistent :
    (from to : Date) → Keeps IsConsistent (list_all_for_settings from to)
unfolding list_all_for_settings
list_all_for_settings-IsConsistent from to = Keeps-statement _ (λ t c. c)

pub ensure_instance-IsConsistent : (k : ℕ) (due : Date) → Keeps IsConsistent (ensure_instance k due)
unfolding ensure_instance
ensure_instance-IsConsistent k due = Keeps-statement _ (λ t c.
    at_if IsConsistent (exists (has_key k due) t.bill_instances) _ _
      (λ _. next_instance-IsConsistent t c)
      (λ fresh.
        at_if IsConsistent (has_bill k t) _ _
          (λ bill. with_instance-IsConsistent t c k due fresh bill)
          (λ _. next_instance-IsConsistent t c)))

pub mark_paid-IsConsistent : (now : Instant) (i : ℤ) → Keeps IsConsistent (mark_paid now i)
unfolding mark_paid
mark_paid-IsConsistent now i = Keeps-statement _ (λ t c.
    at_if IsConsistent (exists (λ x. id_is i x.id) t.bill_instances) _ _
      (λ _. set_instances-IsConsistent t c (λ x. id_is i x.id) now) (λ _. c))

pub upsert-IsConsistent : (l : Login) → Keeps IsConsistent (Vendors.upsert l)
unfolding Vendors.upsert
upsert-IsConsistent l = Keeps-statement _ (λ t c.
    at_if IsConsistent
      (exists (λ v. v.bill_definition_id == l.bill_definition_id) t.vendor_connections) _ _
      (λ _. set_vendors-IsConsistent t c _ (relogged l) _ (λ v. refl))
      (λ fresh.
        at_if IsConsistent (has_bill l.bill_definition_id t) _ _
          (λ bill.
            vendors-IsConsistent t c _ _
              (Distinct-concat (λ a b. (a.bill_definition_id == b.bill_definition_id) ≡ false) _ _
                c.vendor_keys (exists-none _ t.vendor_connections fresh))
              (All-append (λ v. has_bill v.bill_definition_id t ≡ true) _ _ c.vendor_bills
                (bill, tt)))
          (λ _. vendors-IsConsistent t c _ _ c.vendor_keys c.vendor_bills)))

pub vendors_delete-IsConsistent : (id : ℕ) → Keeps IsConsistent (Vendors.delete id)
unfolding Vendors.delete
vendors_delete-IsConsistent id = Keeps-statement _ (λ t c.
    vendors-IsConsistent t c _ _
      (Distinct-select (λ a b. (a.bill_definition_id == b.bill_definition_id) ≡ false) _ _
        c.vendor_keys)
      (All-select (λ v. has_bill v.bill_definition_id t ≡ true) _ _ c.vendor_bills))

pub mark_synced-IsConsistent :
    (now : Instant) (id : ℕ) (number : Bytes) (e : Option Error)
    → Keeps IsConsistent (Vendors.mark_synced now id number e)
unfolding Vendors.mark_synced
mark_synced-IsConsistent now id number e =
    Keeps-statement _ (λ t c. set_vendors-IsConsistent t c _ (synced now number e) _ (λ v. refl))

pub vendors_list_all-IsConsistent : Keeps IsConsistent Vendors.list_all
unfolding Vendors.list_all
vendors_list_all-IsConsistent = Keeps-statement _ (λ t c. c)

pub get_by_bill-IsConsistent : (k : ℕ) → Keeps IsConsistent (Vendors.get_by_bill k)
unfolding Vendors.get_by_bill
get_by_bill-IsConsistent k = Keeps-statement _ (λ t c. c)
