-- ===== src/Handlers/Settings/Safe.antt =====
-- What every action of the settings page keeps, and which bills it will not touch.
use billtracker_plugin.Base.{
  ◌≡◌, refl, Bool, true, false, Option, none, some, List, [], ◌∷◌, Bytes, codes, same, is_empty,
  trim_space, first, if◌then◌else◌,
}
use billtracker_plugin.Base.Int.{ℤ, id_is}
use billtracker_plugin.Base.Atoi.{atoi}
use billtracker_plugin.Errors.{Result, managed_by_bills_json, unknown_action}
use billtracker_plugin.Clock.{Clock}
use billtracker_plugin.Crypto.{Aead}
use billtracker_plugin.Schedule.{BillDefinition}
use billtracker_plugin.Models.Rows.{Tables}
use billtracker_plugin.Models.Database.{Db, Exec, pure, attempt, statement}
use billtracker_plugin.Models.Bills
use billtracker_plugin.Models.Database.Keeps.{
  Keeps, Keeps-attempt, Keeps-pure, Keeps-lift, Keeps-if,
}
use billtracker_plugin.Models.Consistent.{IsConsistent}
use billtracker_plugin.Models.Consistent.Bills.{
  create-IsConsistent, get_by_id-IsConsistent, update_bill-IsConsistent, delete-IsConsistent,
}
use billtracker_plugin.Models.Consistent.Instances.{mark_paid-IsConsistent}
use billtracker_plugin.Models.Consistent.Accounts.{
  set_visible-IsConsistent, set_display_name-IsConsistent, delete_all-IsConsistent,
  simplefin_get-IsConsistent, disconnect-IsConsistent, connect-IsConsistent,
}
use billtracker_plugin.Scheduler.Instances.{generate_instances_for-IsConsistent}
use billtracker_plugin.Handlers.Forms.{Form}
use billtracker_plugin.Handlers.Settings.{
  Reply, refused, refuse, with_field_id, finish, generate, add_bill, edit, update_bill, remove,
  delete_bill, mark_paid, toggle_account_visibility, set_account_display_name, disconnect_simplefin,
  refresh_simplefin, claimed, connect_simplefin, handle_settings_action,
}

finish-IsConsistent : (m : Exec (Unit {0})) → Keeps IsConsistent m → Keeps IsConsistent (finish m)
finish-IsConsistent m k = Keeps-attempt _ _ _ k (λ e. Keeps-pure _) (λ _. Keeps-pure _)

with_field_id-IsConsistent :
    (form : Form) (act : ℤ → Exec Reply) (id : Option ℤ)
    → ((i : ℤ) → Keeps IsConsistent (act i))
    → Keeps IsConsistent (with_field_id form act id)
with_field_id-IsConsistent form act none k = Keeps-pure _
with_field_id-IsConsistent form act (some i) k = k i

on_action :
    (form : Form) (word : Bytes) (m n : Exec Reply)
    → Keeps IsConsistent m
    → Keeps IsConsistent n
    → Keeps IsConsistent (if same (form (codes "action")) word then m else n)
on_action form word m n km kn = Keeps-if (same (form (codes "action")) word) m n (λ _. km) (λ _. kn)

module _ (clock : Clock) (days : ℤ) where
  generate-IsConsistent : (def : BillDefinition) → Keeps IsConsistent (generate clock days def)
  generate-IsConsistent def =
      Keeps-attempt _ _ _ (generate_instances_for-IsConsistent clock def days) (λ e. Keeps-pure _)
        (λ _. Keeps-pure _)

  add_bill-IsConsistent : (form : Form) → Keeps IsConsistent (add_bill clock days form)
  unfolding add_bill
  add_bill-IsConsistent form =
      Keeps-attempt _ _ _ (Keeps-lift _) (λ e. Keeps-pure _)
        λ def.
          Keeps-attempt _ _ _ (create-IsConsistent def) (λ e. Keeps-pure _)
            λ id. generate-IsConsistent _

  settings_update-IsConsistent : (form : Form) → Keeps IsConsistent (update_bill clock days form)
  unfolding update_bill
  settings_update-IsConsistent form = with_field_id-IsConsistent form _ _ λ id.
      Keeps-attempt _ _ (edit clock days form id) (get_by_id-IsConsistent id) (λ e. Keeps-pure _)
        λ existing.
          Keeps-if existing.bootstrap_managed _ _ (λ _. Keeps-pure _)
            λ _.
              Keeps-attempt _ _ _ (Keeps-lift _) (λ e. Keeps-pure _)
                λ def.
                  Keeps-attempt _ _ _ (update_bill-IsConsistent id def) (λ e. Keeps-pure _)
                    λ _. generate-IsConsistent _

  delete_bill-IsConsistent : (form : Form) → Keeps IsConsistent (delete_bill clock days form)
  unfolding delete_bill
  delete_bill-IsConsistent form = with_field_id-IsConsistent form _ _ λ id.
      Keeps-attempt _ _ (remove clock days id) (get_by_id-IsConsistent id) (λ e. Keeps-pure _)
        λ existing.
          Keeps-if existing.bootstrap_managed _ _ (λ _. Keeps-pure _)
            λ _. finish-IsConsistent _ (delete-IsConsistent id)

  -- What the actions on a row of the form's id keep.
  row_actions-IsConsistent :
      (form : Form)
      → Keeps IsConsistent (mark_paid clock days form)
        × Keeps IsConsistent (toggle_account_visibility clock days form)
        × Keeps IsConsistent (set_account_display_name clock days form)
  unfolding mark_paid toggle_account_visibility set_account_display_name
  row_actions-IsConsistent form = (
    with_field_id-IsConsistent form _ _
        (λ id. finish-IsConsistent _ (mark_paid-IsConsistent clock.now id)),
    with_field_id-IsConsistent form _ _
        (λ id. finish-IsConsistent _ (set_visible-IsConsistent id _)),
    with_field_id-IsConsistent form _ _
        (λ id. finish-IsConsistent _ (set_display_name-IsConsistent id _)),
  )

  disconnect_simplefin-IsConsistent : Keeps IsConsistent (disconnect_simplefin clock days)
  unfolding disconnect_simplefin
  disconnect_simplefin-IsConsistent =
      Keeps-attempt _ _ _ disconnect-IsConsistent (λ e. Keeps-pure _)
        λ _. finish-IsConsistent _ delete_all-IsConsistent

  refresh_simplefin-IsConsistent : Keeps IsConsistent (refresh_simplefin clock days)
  unfolding refresh_simplefin
  refresh_simplefin-IsConsistent =
      Keeps-attempt _ _ _ simplefin_get-IsConsistent (λ e. Keeps-pure _) (λ _. Keeps-pure _)

  module _ (gcm : Aead) (claim : Bytes → Result Bytes) (random : Option Bytes) where
    connect_simplefin-IsConsistent :
        (form : Form) → Keeps IsConsistent (connect_simplefin clock days gcm claim random form)
    unfolding connect_simplefin
    connect_simplefin-IsConsistent form =
        Keeps-if (is_empty (trim_space (form (codes "setup_token")))) _
          (claimed clock days gcm claim random (trim_space (form (codes "setup_token"))))
          (λ _. Keeps-pure _)
          λ _.
            Keeps-attempt _ _ _ (Keeps-lift _) (λ e. Keeps-pure _)
              λ access_url.
                Keeps-attempt _ _ _ (Keeps-lift _) (λ e. Keeps-pure _)
                  λ encrypted.
                    Keeps-attempt _ _ _ (connect-IsConsistent clock.now encrypted)
                      (λ e. Keeps-pure _) λ _. Keeps-pure _

    -- Every action, with every form and whatever the database fails, keeps the tables consistent.
    pub handle_settings_action-IsConsistent :
        (form : Form) → Keeps IsConsistent (handle_settings_action clock days gcm claim random form)
    unfolding handle_settings_action
    handle_settings_action-IsConsistent form =
        let (paid, shown, named) = row_actions-IsConsistent form in
        on_action form (codes "add_bill") _ _ (add_bill-IsConsistent form) (
          on_action form (codes "update_bill") _ _ (settings_update-IsConsistent form) (
            on_action form (codes "delete_bill") _ _ (delete_bill-IsConsistent form) (
              on_action form (codes "mark_paid") _ _ paid (
                on_action form (codes "connect_simplefin") _ _ (connect_simplefin-IsConsistent form)
                  (on_action form (codes "disconnect_simplefin") _ _
                    disconnect_simplefin-IsConsistent
                    (on_action form (codes "refresh_simplefin") _ _ refresh_simplefin-IsConsistent (
                      on_action form (codes "toggle_account_visibility") _ _ shown (
                        on_action form (codes "set_account_display_name") _ _ named
                          (Keeps-pure (refused unknown_action))))))))))

  get_by_id_leaves :
      (id : ℤ) (existing : BillDefinition) (act : BillDefinition → Exec Reply) (t : Tables)
      (outages : List Bool)
      → first (λ d. id_is id d.id) t.bill_definitions ≡ some existing
      → act existing ≡ refuse managed_by_bills_json
      → (attempt
          (Bills.get_by_id id)
          refuse
          act
          (record { tables = t; outages = outages })).1.tables
        ≡ t
  unfolding attempt Bills.get_by_id statement pure
  get_by_id_leaves id existing act t [] found refuses = rw (found, refuses)
  get_by_id_leaves id existing act t (false ∷ rest) found refuses = rw (found, refuses)
  get_by_id_leaves id existing act t (true ∷ rest) found refuses = refl

  -- A bill that bills.json manages is neither edited nor deleted through the page, whatever the
  -- form says and the database fails: the tables stay as they were.
  pub managed_bill_stays :
      (form : Form) (id : ℤ) (existing : BillDefinition) (db : Db)
      → atoi (form (codes "id")) ≡ some id
      → first (λ d. id_is id d.id) db.tables.bill_definitions ≡ some existing
      → existing.bootstrap_managed ≡ true
      → ((update_bill clock days form db).1.tables ≡ db.tables)
        × ((delete_bill clock days form db).1.tables ≡ db.tables)
  unfolding update_bill delete_bill
  managed_bill_stays form id existing db asked found managed = rw asked (
    get_by_id_leaves id existing (edit clock days form id) db.tables db.outages found (rw managed),
    get_by_id_leaves id existing (remove clock days id) db.tables db.outages found (rw managed),
  )
