-- ===== src/Models/Instances/Ensure.antt =====
-- What `EnsureInstance` and `MarkPaid` do to the table of instances.
use billtracker_plugin.Base.{
  ℕ, ◌≡◌, refl, ◌⊎◌, inl, inr, Bool, true, false, List, [], ◌∷◌, ◌++◌, append-nil, arith,
  Bool-cases, All, exists, exists-append_left, exists-append_right, update,
}
use billtracker_plugin.Base.Int.{ℤ, id_is}
use billtracker_plugin.Errors.{Error, Result, ok, err, db_failure, instance_not_found}
use billtracker_plugin.Calendar.{Date, same_day}
use billtracker_plugin.Models.Rows.{Instant, BillInstance, Tables}
use billtracker_plugin.Models.Database.{Db, statement}
use billtracker_plugin.Models.Instances.{has_key, new_instance, ensure_query, paid_now, mark_paid}
use billtracker_plugin.Models.Consistent.{has_bill}

-- Whether a bill has an instance on a day.
abbrev pub has_instance : ℕ → Date → Tables → Bool
has_instance k due t = exists (has_key k due) t.bill_instances

has_key_self : (id k : ℕ) (due : Date) → has_key k due (new_instance id k due) ≡ true
unfolding same_day
has_key_self id k due = ground arith

module _ (k : ℕ) (due : Date) (t : Tables) where
  -- Rows are only added: the instances that were there stay, as they are and where they are.
  pub ensure_query_adds :
      (added : List BillInstance) × ((ensure_query k due t).1.bill_instances
        ≡ t.bill_instances ++ added)
      × All (λ i. (has_key k due i ≡ true) × (i.paid ≡ false)) added
  ensure_query_adds = elim (Bool-cases (has_instance k due t)) [
    | inl e ↦ ([], rw (e, append-nil), tt)
    | inr e ↦ elim (Bool-cases (has_bill k t)) [
      | inl b ↦ (
        new_instance t.next_instance k due ∷ [],
        rw (e, b),
        ((has_key_self t.next_instance k due, refl), tt),
      )
      | inr b ↦ ([], rw (e, b, append-nil), tt)
    ]
  ]

  -- The definitions are left alone.
  pub definitions-ensure_query : (ensure_query k due t).1.bill_definitions ≡ t.bill_definitions
  definitions-ensure_query = elim (Bool-cases (has_instance k due t)) [
    | inl e ↦ rw e
    | inr e ↦ elim (Bool-cases (has_bill k t)) [ inl b ↦ rw (e, b) | inr b ↦ rw (e, b) ]
  ]

  -- For a bill that exists the query succeeds, and the instance is there afterwards.
  pub ensure_query_makes :
      has_bill k t ≡ true
      → ((ensure_query k due t).0 ≡ ok tt) × (has_instance k due (ensure_query k due t).1 ≡ true)
  ensure_query_makes b = elim (Bool-cases (has_instance k due t)) [
    | inl e ↦ rw e (refl, e)
    | inr e ↦
        rw (e, b)
          (
            refl,
            exists-append_right (has_key k due) t.bill_instances _
                (rw (has_key_self t.next_instance k due)),
          )
  ]

  -- No instance is lost.
  pub has_instance-ensure_query :
      (j : ℕ) (d : Date)
      → has_instance j d t ≡ true
      → has_instance j d (ensure_query k due t).1 ≡ true
  has_instance-ensure_query j d h =
      let (added, e, _) = ensure_query_adds in
      rw e (exists-append_left (has_key j d) t.bill_instances added h)

-- Ensuring an instance that is there changes no row.
pub ensure_query_again :
    (k : ℕ) (due : Date) (t : Tables)
    → has_instance k due t ≡ true
    → ((ensure_query k due t).0 ≡ ok tt)
      × ((ensure_query k due t).1.bill_instances ≡ t.bill_instances)
ensure_query_again k due t h = rw h (refl, refl)

-- The instance was there and is paid, or there is an error and nothing has changed.
abbrev pub MarksPaid : Instant → ℤ → Tables → Result (Unit {0}) × Db → Type 0
MarksPaid now i t after =
    ((after.0 ≡ ok tt)
      × (exists (λ x. id_is i x.id) t.bill_instances ≡ true)
      × (after.1.tables ≡ record t {
        bill_instances = update (λ x. id_is i x.id) (paid_now now) t.bill_instances;
      }))
    ⊎ ((e : Error) × (after.0 ≡ err e) × (after.1.tables ≡ t))

-- `MarkPaid`, whatever the database fails, either returns no error, and then there was an instance
-- with the id and just the rows with that id are paid, as of now, or it returns an error and has
-- changed nothing.
pub mark_paid_outcome :
    (now : Instant) (i : ℤ) (t : Tables) (outages : List Bool)
    → MarksPaid now i t (mark_paid now i (record { tables = t; outages = outages }))
unfolding mark_paid statement
mark_paid_outcome now i t [] = elim (Bool-cases (exists (λ x. id_is i x.id) t.bill_instances)) [
  | inl e ↦ rw e (inl (refl, refl, refl))
  | inr e ↦ rw e (inr (instance_not_found, refl, refl))
]
mark_paid_outcome now i t (false ∷ rest) =
    elim (Bool-cases (exists (λ x. id_is i x.id) t.bill_instances)) [
      | inl e ↦ rw e (inl (refl, refl, refl))
      | inr e ↦ rw e (inr (instance_not_found, refl, refl))
    ]
mark_paid_outcome now i t (true ∷ rest) = inr (db_failure, refl, refl)
