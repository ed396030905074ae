-- ===== src/Errors.antt =====
-- The errors that the program's functions return, one constructor for each message, and results.
-- An error that wraps another is the constructor of what went wrong underneath.
use billtracker_plugin.Base.{ℕ, Bytes, ◌≡◌, refl, ◌⊎◌, inl, inr}

pub data Error : Type 0 where
  -- a statement that the database refused or did not answer
  db_failure : Error
  -- internal/models
  bill_not_found vendor_connection_not_found no_simplefin_connection instance_not_found : Error
  -- internal/util/crypto.go
  nonce_failed ciphertext_too_short open_failed key_not_hex key_not_32_bytes : Error
  -- internal/connectors
  no_connector : Bytes → Error
  tenant_required request_failed login_not_reached bad_due_date : Error
  bad_status : ℕ → Error
  not_on_page : Bytes → Error
  -- amounts
  no_amount bad_whole_part bad_fraction : Error
  -- internal/config
  passwords_exclusive password_file_unreadable : Error
  invalid_setting : Bytes → Error
  database_unset encryption_key_unset : Error
  -- definitions in forms and in bills.json
  name_required invalid_amount bad_day_of_month bad_quarter_start bad_one_off_date bad_schedule :
      Error
  credentials_required no_bill_named : Error
  -- actions on the settings page
  bad_form unknown_action invalid_id managed_by_bills_json setup_token_required not_connected :
      Error
  -- internal/simplefin
  token_not_base64 token_not_a_url https_required bad_access_url no_allowed_address : Error
  bad_response bridge_errors : Error
  -- internal/release
  no_dev_tags : Error
  -- cmd/server
  bad_templates : Error

pub data Result {ℓ} (A : Type ℓ) : Type ℓ where
  ok : A → Result A
  err : Error → Result A

pub ok-injective {ℓ} : {A : Type ℓ} {a b : A} → ok a ≡ ok b → a ≡ b
ok-injective e = cc

pub Result-cases :
    {A : Type 0} (r : Result A) → ((x : Error) × (r ≡ err x)) ⊎ ((a : A) × (r ≡ ok a))
Result-cases (err x) = inl (x, refl)
Result-cases (ok a) = inr (a, refl)
