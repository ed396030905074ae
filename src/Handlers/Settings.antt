-- ===== src/Handlers/Settings.antt =====
-- internal/handlers/settings.go: the actions of the settings page. The page's text is left out: a
-- reply says how an action went.
pub mod Safe
pub mod Unchanged
pub mod Adding
pub mod Connecting
use billtracker_plugin.Base.{
  ℕ, Bool, true, false, Option, none, some, List, Bytes, codes, same, is_empty, trim_space,
  if◌then◌else◌,
}
use billtracker_plugin.Base.Int.{ℤ, pos_part}
use billtracker_plugin.Base.Atoi.{atoi}
use billtracker_plugin.Errors.{
  Error, Result, ok, err, unknown_action, invalid_id, managed_by_bills_json, setup_token_required,
  not_connected,
}
use billtracker_plugin.Clock.{Clock}
use billtracker_plugin.Crypto.{Aead, encrypt}
use billtracker_plugin.Schedule.{BillDefinition}
use billtracker_plugin.Models.Rows.{SimpleFinConnection}
use billtracker_plugin.Models.Database.{Exec, pure, lift, attempt, ◌>>=◌}
use billtracker_plugin.Models.Bills
use billtracker_plugin.Models.Instances
use billtracker_plugin.Models.Accounts
use billtracker_plugin.Models.SimpleFin
use billtracker_plugin.Scheduler.{generate_instances_for}
use billtracker_plugin.Handlers.Forms.{Form, parse_bill_form}

-- How an action went. `without_instances` is the message of success that tells of an error, and
-- `refreshing` starts `refreshSimpleFinAsync`, which is the job `refresh_simplefin_now`.
pub data Reply : Type 0 where
  refused : Error → Reply
  succeeded refreshing : Reply
  without_instances : Error → Reply

abbrev pub refuse : Error → Exec Reply
refuse e = pure (refused e)

abbrev with_id : ℕ → BillDefinition → BillDefinition
with_id id b = record b { id = id }

abbrev field_id : Form → Option ℤ
field_id form = atoi (form (codes "id"))

-- `strconv.Atoi` of the form's id, and what is done with it.
abbrev pub with_field_id : Form → (ℤ → Exec Reply) → Option ℤ → Exec Reply
with_field_id form act none = refuse invalid_id
with_field_id form act (some id) = act id

abbrev pub finish : Exec (Unit {0}) → Exec Reply
finish m = attempt m refuse λ _. pure succeeded

-- `clock` with its day, and `lookahead_days` of the configuration.
module _ (clock : Clock) (lookahead_days : ℤ) where
  abbrev pub generate : BillDefinition → Exec Reply
  generate def =
      attempt (generate_instances_for clock def lookahead_days) (λ e. pure (without_instances e))
        λ _. pure succeeded

  -- `addBill`.
  unfoldable pub add_bill : Form → Exec Reply
  add_bill form =
      attempt (lift (parse_bill_form form)) refuse
        λ def. attempt (Bills.create def) refuse λ id. generate (record def { id = id })

  abbrev pub edit : Form → ℤ → BillDefinition → Exec Reply
  edit form id existing =
      if existing.bootstrap_managed
      then refuse managed_by_bills_json
      else attempt (lift (parse_bill_form form)) refuse λ def.
        attempt (Bills.update_bill id def) refuse λ _. generate (record def { id = pos_part id })

  -- `updateBill`.
  unfoldable pub update_bill : Form → Exec Reply
  update_bill form =
      with_field_id form (λ id. attempt (Bills.get_by_id id) refuse (edit form id)) (field_id form)

  abbrev pub remove : ℤ → BillDefinition → Exec Reply
  remove id existing =
      if existing.bootstrap_managed then refuse managed_by_bills_json else finish (Bills.delete id)

  -- `deleteBill`.
  unfoldable pub delete_bill : Form → Exec Reply
  delete_bill form =
      with_field_id form (λ id. attempt (Bills.get_by_id id) refuse (remove id)) (field_id form)

  -- `markPaid`.
  unfoldable pub mark_paid : Form → Exec Reply
  mark_paid form =
      with_field_id form (λ id. finish (Instances.mark_paid clock.now id)) (field_id form)

  -- `toggleAccountVisibility`.
  unfoldable pub toggle_account_visibility : Form → Exec Reply
  toggle_account_visibility form =
      let visible = same (form (codes "visible")) (codes "true") in
      with_field_id form (λ id. finish (Accounts.set_visible id visible)) (field_id form)

  -- `setAccountDisplayName`.
  unfoldable pub set_account_display_name : Form → Exec Reply
  set_account_display_name form =
      let display_name = trim_space (form (codes "display_name")) in
      with_field_id form (λ id. finish (Accounts.set_display_name id display_name)) (field_id form)

  -- `disconnectSimpleFin`.
  unfoldable pub disconnect_simplefin : Exec Reply
  disconnect_simplefin = attempt SimpleFin.disconnect refuse λ _. finish Accounts.delete_all

  -- `refreshSimpleFinNow`.
  unfoldable pub refresh_simplefin : Exec Reply
  refresh_simplefin = attempt SimpleFin.get (λ _. refuse not_connected) λ _. pure refreshing

  -- `claim` is `simplefin.ClaimSetupToken`: what the bridge answers to a setup token. `random` is
  -- what the random reader gives for the nonce.
  module _ (gcm : Aead) (claim : Bytes → Result Bytes) (random : Option Bytes) where
    abbrev pub claimed : Bytes → Exec Reply
    claimed token = attempt (lift (claim token)) refuse λ access_url.
        attempt (lift (encrypt gcm random access_url)) refuse
          λ encrypted. attempt (SimpleFin.connect clock.now encrypted) refuse λ _. pure refreshing

    -- `connectSimpleFin`.
    unfoldable pub connect_simplefin : Form → Exec Reply
    connect_simplefin form =
        let token = trim_space (form (codes "setup_token")) in
        if is_empty token then refuse setup_token_required else claimed token

    -- `handleSettingsAction`, once the form is parsed.
    unfoldable pub handle_settings_action : Form → Exec Reply
    handle_settings_action form =
        let action = form (codes "action") in
        if same action (codes "add_bill")
        then add_bill form
        else if same action (codes "update_bill")
        then update_bill form
        else if same action (codes "delete_bill")
        then delete_bill form
        else if same action (codes "mark_paid")
        then mark_paid form
        else if same action (codes "connect_simplefin")
        then connect_simplefin form
        else if same action (codes "disconnect_simplefin")
        then disconnect_simplefin
        else if same action (codes "refresh_simplefin")
        then refresh_simplefin
        else if same action (codes "toggle_account_visibility")
        then toggle_account_visibility form
        else if same action (codes "set_account_display_name")
        then set_account_display_name form
        else refuse unknown_action
