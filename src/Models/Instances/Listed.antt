-- ===== src/Models/Instances/Listed.antt =====
-- Marking an instance paid, and the list of unpaid bills.
use billtracker_plugin.Base.{
  ℕ, ◌≡◌, refl, true, false, Option, none, some, List, [], ◌∷◌, ◌==◌, All, All-append, select,
  update, exists, Bool-cases, inl, inr, arith,
}
use billtracker_plugin.Base.Int.{pos, id_is}
use billtracker_plugin.Errors.{ok}
use billtracker_plugin.Calendar.{Date}
use billtracker_plugin.Schedule.{BillDefinition}
use billtracker_plugin.Models.Rows.{Instant, BillInstance, BillInstanceView, Tables}
use billtracker_plugin.Models.Database.{statement}
use billtracker_plugin.Models.Database.Quiet.{quiet}
use billtracker_plugin.Models.Sorting.{order_by-All}
use billtracker_plugin.Models.Instances.{
  joined, joined_with, is_upcoming_unpaid, list_upcoming_unpaid, paid_now, mark_paid,
}

joined_with-All :
    (Q : ℕ → Type 0) (i : BillInstance) (d : Option BillDefinition)
    → Q i.id
    → All (λ v. Q v.instance_id) (joined_with i d)
joined_with-All Q i none q = tt
joined_with-All Q i (some d) q = (q, tt)

joined-All :
    (Q : ℕ → Type 0) (ds : List BillDefinition) (is : List BillInstance)
    → All (λ i. Q i.id) is
    → All (λ v. Q v.instance_id) (joined ds is)
unfolding joined
joined-All Q ds [] h = tt
joined-All Q ds (i ∷ is) h =
    All-append (λ v. Q v.instance_id) (joined_with i _) (joined ds is) (joined_with-All Q i _ h.0)
      (joined-All Q ds is h.1)

-- Once the instance `k` is paid, it is not among the unpaid ones.
paid_left_out :
    (now : Instant) (to : Date) (k : ℕ) (is : List BillInstance)
    → All
        (λ i. (i.id == k) ≡ false)
        (select (is_upcoming_unpaid to) (update (λ i. id_is (pos k) i.id) (paid_now now) is))
paid_left_out now to k [] = tt
paid_left_out now to k (i ∷ is) = elim (Bool-cases (k == i.id)) [
  | inl e ↦ rw e (paid_left_out now to k is)
  | inr e ↦ rw e (elim (Bool-cases (is_upcoming_unpaid to i)) [
    | inl u ↦ rw u (ground arith, paid_left_out now to k is)
    | inr u ↦ rw u (paid_left_out now to k is)
  ])
]

abbrev pub paid_tables : Instant → ℕ → Tables → Tables
paid_tables now k t = record t {
  bill_instances = update (λ i. id_is (pos k) i.id) (paid_now now) t.bill_instances;
}

pub mark_paid-quiet :
    (now : Instant) (k : ℕ) (t : Tables)
    → exists (λ i. id_is (pos k) i.id) t.bill_instances ≡ true
    → mark_paid now (pos k) (quiet t) ≡ (ok tt, quiet (paid_tables now k t))
unfolding mark_paid statement
mark_paid-quiet now k t there = rw there

-- The list that a database without failures gives.
abbrev pub IsListed : (ℕ → Type 0) → Date → Tables → Type 0
IsListed Q to t =
    (views : List BillInstanceView) × (list_upcoming_unpaid to (quiet t) ≡ (ok views, quiet t))
    × All (λ v. Q v.instance_id) views

pub paid_left_unlisted :
    (now : Instant) (to : Date) (k : ℕ) (t : Tables)
    → IsListed (λ id. (id == k) ≡ false) to (paid_tables now k t)
unfolding list_upcoming_unpaid statement
paid_left_unlisted now to k t = (
  _,
  refl,
  order_by-All _ (λ v. (v.instance_id == k) ≡ false) _
      (joined-All (λ id. (id == k) ≡ false) t.bill_definitions _
        (paid_left_out now to k t.bill_instances)),
)
