-- ===== src/Handlers/Bootstrap/HandMade/Whole.antt =====
-- The whole of `BootstrapBills`, beside the bills of the settings page.
use billtracker_plugin.Base.{
  Option, ◌≡◌, refl, subst, Bool, true, not, ◌&&◌, List, [], ◌∷◌, Bytes, same, select,
  select-append, append-nil, first, exists-nothing, All, All-imp, All-select, All-of_first,
  Bool-cases, Option-cases, inl, inr, arith,
}
use billtracker_plugin.Base.Int.{ℤ}
use billtracker_plugin.Errors.{Error, Result, ok, err, bill_not_found, ok-injective}
use billtracker_plugin.Clock.{Clock}
use billtracker_plugin.Connectors.{Registry}
use billtracker_plugin.Crypto.{Aead}
use billtracker_plugin.Schedule.{BillDefinition}
use billtracker_plugin.Models.Rows.{Tables, row_allowed}
use billtracker_plugin.Models.Database.{Db, Exec}
use billtracker_plugin.Models.Database.Keeps.{
  Keeps, Keeps-statement, Keeps-ignoring, Keeps-pure, Keeps-if,
}
use billtracker_plugin.Models.Bills
use billtracker_plugin.Models.Sorting.{order_by-All}
use billtracker_plugin.Models.Consistent.{IsConsistent}
use billtracker_plugin.Models.Consistent.Bills.{create-IsConsistent}
use billtracker_plugin.Handlers.Forms.{BillBootstrap, bill_bootstrap_to_definition}
use billtracker_plugin.Handlers.Bootstrap.{
  on_missing, reconcile, reconcile_entry, reconcile_each, remove_unseen, bootstrap_bills,
}
use billtracker_plugin.Handlers.Bootstrap.Reconciled.{
  follow_up-IsConsistent, on_existing-IsConsistent, remove_unseen-IsConsistent,
}
use billtracker_plugin.Handlers.Bootstrap.HandMade.{by_hand, HandMade, Unused, delete-HandMade}
use billtracker_plugin.Handlers.Bootstrap.HandMade.Numbers.{Apart, select-Apart}
use billtracker_plugin.Handlers.Bootstrap.HandMade.Kept.{
  Yields, yields_outages, statement-Yields, Keeps-attempt-Yields, follow_up-HandMade,
  on_existing-HandMade,
}

-- Consistent tables, with the bills of the settings page as they were.
abbrev Sound : List BillDefinition → Tables → Type 0
Sound ours t = IsConsistent t × HandMade ours t

Keeps-both :
    {A : Type 0} {P Q : Tables → Type 0} {m : Exec A}
    → Keeps P m
    → Keeps Q m
    → Keeps (λ t. P t × Q t) m
Keeps-both kp kq = record { at = λ db h. (kp.at db h.0, kq.at db h.1) }

module _ (ours : List BillDefinition) where
  bill_definitions-Apart : (t : Tables) → Sound ours t → All (Apart ours) t.bill_definitions
  bill_definitions-Apart t h =
      subst (λ o. All (Apart o) t.bill_definitions) h.1
        (select-Apart t.bill_definitions h.0.definition_ids)

  get_by_name-Yields : (name : Bytes) → Yields (Sound ours) (Apart ours) (Bills.get_by_name name)
  unfolding Bills.get_by_name
  get_by_name-Yields name =
      statement-Yields _ (λ t h. h)
        (λ t d h e. elim (Option-cases (first (λ x. same x.name name) t.bill_definitions)) [
          | inl lost ↦ cc (rw lost at e)
          | inr (x, found) ↦
              subst (Apart ours) (ok-injective (rw found at e))
                (All-of_first (Apart ours) _ t.bill_definitions (bill_definitions-Apart t h) found)
        ])

  list_all-Yields : Yields (Sound ours) (All (Apart ours)) Bills.list_all
  unfolding Bills.list_all
  list_all-Yields =
      statement-Yields _ (λ t h. h)
        (λ t ds h e.
          subst (All (Apart ours)) (ok-injective e)
            (order_by-All _ (Apart ours) t.bill_definitions (bill_definitions-Apart t h)))

  create-HandMade :
      (b : BillDefinition) → b.bootstrap_managed ≡ true → Keeps (HandMade ours) (Bills.create b)
  unfolding Bills.create
  create-HandMade b managed = Keeps-statement _ (λ t h. elim (Bool-cases (row_allowed b)) [
    | inl fits ↦ rw (fits, select-append by_hand t.bill_definitions _, managed, append-nil) h
    | inr refused ↦ rw refused h
  ])

  -- A new row's number is above all numbers of the table.
  next-Unused : (t : Tables) → Sound ours t → Unused t.next_definition ours
  next-Unused t h = subst (Unused t.next_definition) h.1 (
      exists-nothing _ (select by_hand t.bill_definitions) (
        All-imp _ (select by_hand t.bill_definitions) (λ d lt. ground (arith, lt))
          (All-select _ by_hand t.bill_definitions h.0.definition_bound)))

  create-Yields :
      (b : BillDefinition)
      → b.bootstrap_managed ≡ true
      → Yields (Sound ours) (λ id. Unused id ours) (Bills.create b)
  unfolding Bills.create
  create-Yields b managed = record {
    keeps = Keeps-both (create-IsConsistent b) (create-HandMade b managed);
    yields = λ db a h e.
        yields_outages _
          (λ t id sound is. elim (Bool-cases (row_allowed b)) [
            | inl fits ↦
                subst (λ k. Unused k ours) (ok-injective (rw fits at is)) (next-Unused t sound)
            | inr refused ↦ cc (rw refused at is)
          ])
          db.tables db.outages a h e;
  }

  module _ (read_file : Bytes → Option Bytes) (gcm : Aead) (random : Bytes → Option Bytes)
      (registry : Registry) (clock : Clock) (minutes days : ℤ) where
    on_missing-Sound :
        (entry : BillBootstrap) (def : BillDefinition) (e : Error)
        → Keeps
            (Sound ours)
            (on_missing read_file gcm random registry clock minutes days entry def e)
    on_missing-Sound entry def bill_not_found =
        Keeps-attempt-Yields _ _ _ (create-Yields _ refl) (λ _. Keeps-pure tt)
          (λ id free.
            Keeps-both
              (follow_up-IsConsistent read_file gcm random registry clock minutes days entry _)
              (follow_up-HandMade ours read_file gcm random registry clock minutes days entry _
                free))
    on_missing-Sound entry def _ = Keeps-pure tt

    reconcile-Sound :
        (entry : BillBootstrap) (def : BillDefinition)
        → Keeps (Sound ours) (reconcile read_file gcm random registry clock minutes days entry def)
    reconcile-Sound entry def =
        Keeps-attempt-Yields _ _ _ (get_by_name-Yields def.name) (on_missing-Sound entry def)
          (λ existing apart.
            Keeps-both
              (on_existing-IsConsistent read_file gcm random registry clock minutes days entry def
                existing)
              (on_existing-HandMade ours read_file gcm random registry clock minutes days entry def
                existing apart))

    reconcile_entry-Sound :
        (entry : BillBootstrap) (r : Result BillDefinition)
        → Keeps
            (Sound ours)
            (reconcile_entry read_file gcm random registry clock minutes days entry r)
    reconcile_entry-Sound entry (err e) = Keeps-pure tt
    reconcile_entry-Sound entry (ok def) = reconcile-Sound entry def

    reconcile_each-Sound :
        (entries : List BillBootstrap)
        → Keeps
            (Sound ours)
            (reconcile_each read_file gcm random registry clock minutes days entries)
    unfolding reconcile_each
    reconcile_each-Sound [] = Keeps-pure tt
    reconcile_each-Sound (entry ∷ entries) =
        Keeps-ignoring _ _ (reconcile_entry-Sound entry (bill_bootstrap_to_definition entry))
          (reconcile_each-Sound entries)

    remove_unseen-HandMade :
        (listed : Bytes → Bool) (ds : List BillDefinition)
        → All (Apart ours) ds
        → Keeps
            (HandMade ours)
            (remove_unseen read_file gcm random registry clock minutes days listed ds)
    unfolding remove_unseen
    remove_unseen-HandMade listed [] h = Keeps-pure tt
    remove_unseen-HandMade listed (d ∷ ds) h =
        let later = remove_unseen-HandMade listed ds h.1 in
        elim (Bool-cases d.bootstrap_managed) [
          | inl managed ↦
              Keeps-if (d.bootstrap_managed && not (listed d.name)) _ _
                (λ _. Keeps-ignoring _ _ (delete-HandMade ours d.id (h.0 managed)) later)
                (λ _. later)
          | inr theirs ↦ rw theirs later
        ]

    bootstrap_bills-Sound :
        (entries : List BillBootstrap)
        → Keeps
            (Sound ours)
            (bootstrap_bills read_file gcm random registry clock minutes days entries)
    unfolding bootstrap_bills
    bootstrap_bills-Sound entries = Keeps-ignoring _ _ (reconcile_each-Sound entries) (
        Keeps-attempt-Yields _ _ _ list_all-Yields (λ _. Keeps-pure tt)
          (λ ds apart.
            Keeps-both
              (remove_unseen-IsConsistent read_file gcm random registry clock minutes days _ ds)
              (remove_unseen-HandMade _ ds apart)))

-- Whatever bills.json says, the vendors answer and the database fails, the bootstrap leaves the bills
-- that it does not manage as they are and in their order, on consistent tables.
pub bootstrap_bills_leaves :
    (read_file : Bytes → Option Bytes) (gcm : Aead) (random : Bytes → Option Bytes)
    (registry : Registry) (clock : Clock) (minutes days : ℤ) (entries : List BillBootstrap)
    (db : Db)
    → IsConsistent db.tables
    → select by_hand
        (bootstrap_bills read_file gcm random registry clock minutes days entries
          db).1.tables.bill_definitions
      ≡ select by_hand db.tables.bill_definitions
bootstrap_bills_leaves read_file gcm random registry clock minutes days entries db c =
    ((bootstrap_bills-Sound (select by_hand db.tables.bill_definitions) read_file gcm random
        registry clock minutes days entries).at
      db (c, refl)).1
