-- ===== src/Handlers/Settings/Unchanged.antt =====
-- The edit form of the settings page, sent back as it was shown.
use billtracker_plugin.Base.{
  ℕ, ◌≡◌, refl, ap, sym, ◌∙◌, subst, Bool, true, false, some, some-injective, List, [], ◌∷◌, codes,
  same, ◌==◌, All, All-imp, update-nothing, Distinct, first, update, append-nil, Bool-cases, inl,
  inr,
}
use billtracker_plugin.Base.Int.{ℤ, pos, id_is, fits_int64}
use billtracker_plugin.Base.Atoi.{atoi}
use billtracker_plugin.Base.Decimal.{atoi-decimal}
use billtracker_plugin.Errors.{ok-injective, Error, ok, err, db_failure}
use billtracker_plugin.Calendar.{Date}
use billtracker_plugin.Clock.{Clock}
use billtracker_plugin.Schedule.{BillDefinition}
use billtracker_plugin.Models.Rows.{BillInstance, Tables}
use billtracker_plugin.Models.Database.{Db, Exec, statement, attempt, pure}
use billtracker_plugin.Models.Database.Keeps.{
  Keeps, Keeps-statement, Keeps-bind, Keeps-attempt, Keeps-attempt-lift, Keeps-pure, keeps_rules,
}
use billtracker_plugin.Models.Database.Quiet.{quiet}
use billtracker_plugin.Models.Bills
use billtracker_plugin.Models.Bills.{edited, set_definitions}
use billtracker_plugin.Models.Consistent.{at_if}
use billtracker_plugin.Models.Instances.{ensure_instance}
use billtracker_plugin.Models.Instances.Ensure.{definitions-ensure_query}
use billtracker_plugin.Scheduler.{ensure_all, generate_instances_for}
use billtracker_plugin.Scheduler.Instances.{Extends, extend}
use billtracker_plugin.Handlers.Forms.{Form, parse_bill_form}
use billtracker_plugin.Handlers.Pages.Table.{settings_bill_def_row}
use billtracker_plugin.Handlers.Pages.Editing.{
  bill_fields, edit_form, IsEditable, as_typed, parse_bill_form-edit_form,
}
use billtracker_plugin.Handlers.Settings.{Reply, refuse, succeeded, generate, edit, update_bill}

-- The definitions are those of before, and the instances too, with unpaid ones behind them.
abbrev pub Grows : List BillDefinition → List BillInstance → Tables → Type 0
Grows defs instances t = (t.bill_definitions ≡ defs) × Extends instances t

module _ (defs : List BillDefinition) (instances : List BillInstance) where
  ensure_instance-Grows :
      (k : ℕ) (due : Date) → Keeps (Grows defs instances) (ensure_instance k due)
  unfolding ensure_instance
  ensure_instance-Grows k due =
      Keeps-statement _
        (λ t h. (definitions-ensure_query k due t ∙ h.0, extend instances k due t h.1))

  ensure_all-Grows : (k : ℕ) (dues : List Date) → Keeps (Grows defs instances) (ensure_all k dues)
  unfolding ensure_all
  ensure_all-Grows k [] = search keeps_rules
  ensure_all-Grows k (due ∷ dues) =
      Keeps-bind _ _ (ensure_instance-Grows k due) (λ _. ensure_all-Grows k dues)

  generate_instances_for-Grows :
      (clock : Clock) (def : BillDefinition) (days : ℤ)
      → Keeps (Grows defs instances) (generate_instances_for clock def days)
  unfolding generate_instances_for
  generate_instances_for-Grows clock def days = ensure_all-Grows def.id _

-- Setting the row of `d` to what it says changes nothing.
update-as_typed :
    (d : BillDefinition) (defs : List BillDefinition)
    → Distinct (λ a b. (a.id == b.id) ≡ false) defs
    → first (λ x. d.id == x.id) defs ≡ some d
    → update (λ x. d.id == x.id) (edited (as_typed d)) defs ≡ defs
update-as_typed d [] distinct found = refl
update-as_typed d (x ∷ defs) distinct found = elim (Bool-cases (d.id == x.id)) [
  | inl e ↦
      let is : x ≡ d = some-injective _ _ (rw e at found) in
      let others : All (λ y. (d.id == y.id) ≡ false) defs =
        All-imp (λ y. (x.id == y.id) ≡ false) defs (λ y h. rw (← is) h) distinct.0 in
      rw (e, update-nothing _ (edited (as_typed d)) defs others)
        (ap (λ y. y ∷ defs) (subst (λ y. edited (as_typed d) y ≡ y) (sym is) refl))
  | inr e ↦ rw e (ap (λ ys. x ∷ ys) (update-as_typed d defs distinct.1 (rw e at found)))
]

get_by_id-Keeps :
    (d : BillDefinition) (defs : List BillDefinition) (instances : List BillInstance)
    (act : BillDefinition → Exec Reply) (t : Tables) (outages : List Bool)
    → Keeps (Grows defs instances) (act d)
    → first (λ x. d.id == x.id) t.bill_definitions ≡ some d
    → Grows defs instances t
    → Grows defs instances
        (attempt
          (Bills.get_by_id (pos d.id))
          refuse
          act
          (record { tables = t; outages = outages })).1.tables
unfolding attempt Bills.get_by_id statement pure
get_by_id-Keeps d defs instances act t [] keeps found h = rw found (keeps.at (quiet t) h)
get_by_id-Keeps d defs instances act t (false ∷ rest) keeps found h =
    rw found (keeps.at (record { tables = t; outages = rest }) h)
get_by_id-Keeps d defs instances act t (true ∷ rest) keeps found h = h

module _ (clock : Clock) (days : ℤ) (d : BillDefinition) (editable : IsEditable d)
    (free : d.bootstrap_managed ≡ false) where
  abbrev untouched : Form
  untouched = edit_form (settings_bill_def_row d)

  refuse-Keeps :
      (defs : List BillDefinition) (instances : List BillInstance) (e : Error)
      → Keeps (Grows defs instances) (refuse e)
  refuse-Keeps defs instances e = Keeps-pure _

  update_bill-Keeps :
      (defs : List BillDefinition) (instances : List BillInstance)
      → Distinct (λ a b. (a.id == b.id) ≡ false) defs
      → first (λ x. d.id == x.id) defs ≡ some d
      → Keeps (Grows defs instances) (Bills.update_bill (pos d.id) (as_typed d))
  unfolding Bills.update_bill
  update_bill-Keeps defs instances distinct found = Keeps-statement _ (λ t h.
      at_if (Grows defs instances) _ (err db_failure, t)
        (ok tt, set_definitions (id_is (pos d.id)) (edited (as_typed d)) t) (λ _. h)
        (λ _. (
          ap (update (λ x. d.id == x.id) (edited (as_typed d))) h.0
              ∙ update-as_typed d defs distinct found,
          h.1,
        )))

  generate-Keeps :
      (defs : List BillDefinition) (instances : List BillInstance) (def : BillDefinition)
      → Keeps (Grows defs instances) (generate clock days def)
  generate-Keeps defs instances def =
      Keeps-attempt (generate_instances_for clock def days) _ _
        (generate_instances_for-Grows defs instances clock def days) (λ e. Keeps-pure _)
        (λ _. Keeps-pure succeeded)

  edit-Keeps :
      (defs : List BillDefinition) (instances : List BillInstance)
      → Distinct (λ a b. (a.id == b.id) ≡ false) defs
      → first (λ x. d.id == x.id) defs ≡ some d
      → Keeps (Grows defs instances) (edit clock days untouched (pos d.id) d)
  unfolding edit_form bill_fields
  edit-Keeps defs instances distinct found = rw free (
      Keeps-attempt-lift (parse_bill_form untouched) refuse _ (refuse-Keeps defs instances)
        (λ def is.
          subst
            (λ b. Keeps (Grows defs instances) (
              attempt (Bills.update_bill (pos d.id) b) refuse
                λ _. generate clock days (record b { id = d.id })))
            (ok-injective (sym (parse_bill_form-edit_form d editable) ∙ is))
            (Keeps-attempt _ refuse _ (update_bill-Keeps defs instances distinct found)
              (refuse-Keeps defs instances) (λ _. generate-Keeps defs instances _))))

  -- The edit form that the settings page shows for an editable bill that bills.json does not manage,
  -- sent back with no field changed, on tables whose bills have different numbers: every bill and
  -- every instance stays as it was, and what is added behind the instances is unpaid, whichever
  -- statements the database fails.
  pub unchanged_edit_keeps :
      (db : Db)
      → fits_int64 (pos d.id) ≡ true
      → Distinct (λ a b. (a.id == b.id) ≡ false) db.tables.bill_definitions
      → first (λ x. d.id == x.id) db.tables.bill_definitions ≡ some d
      → Grows db.tables.bill_definitions db.tables.bill_instances
          (update_bill clock days (edit_form (settings_bill_def_row d)) db).1.tables
  unfolding update_bill edit_form same
  unchanged_edit_keeps db small distinct found =
      let asked : atoi (untouched (codes "id")) ≡ some (pos d.id) = atoi-decimal d.id small in
      let start : Grows db.tables.bill_definitions db.tables.bill_instances db.tables =
        (refl, ([], rw append-nil, tt)) in
      rw asked (
        get_by_id-Keeps d db.tables.bill_definitions db.tables.bill_instances
          (edit clock days untouched (pos d.id)) db.tables db.outages
          (edit-Keeps db.tables.bill_definitions db.tables.bill_instances distinct found) found
          start)
