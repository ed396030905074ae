-- ===== src/SimpleFin.antt =====
-- internal/simplefin/client.go: the exchange of a setup token for an access URL, and the balances
-- that the bridge reports. The addresses that are refused are in SimpleFin/Dial. Amounts are read in Money.antt. Go's
-- URL parser and base64 decoder, the network and the JSON decoder are parameters.
pub mod Dial
pub mod Addresses
pub mod Balances
use billtracker_plugin.Base.{
  ℕ, ◌*◌, ◌/◌, ◌%◌, Bool, true, false, not, ◌&&◌, ◌||◌, Option, none, some, List, [], ◌∷◌, ◌++◌,
  Bytes, codes, same, is_empty, length, first, cut_prefix, trim_space, ◌==◌, if◌then◌else◌,
}
use billtracker_plugin.Base.Int.{ℤ, pos, negsuc}
use billtracker_plugin.Errors.{
  Result, ok, err, token_not_base64, token_not_a_url, https_required, bad_access_url,
  no_allowed_address, bad_response, bridge_errors, bad_status,
}
use billtracker_plugin.Money.{parse_money_to_cents}
use billtracker_plugin.Models.Rows.{Instant}
use billtracker_plugin.Models.Accounts.{Synced}
use billtracker_plugin.Connectors.Billeriq.{trim_right_slashes}

-- What the client uses of a `url.URL`: `rest` is its host and path.
pub record Url : Type 0 where
  pub scheme : Bytes
  pub user : Option (Bytes × Option Bytes)
  pub rest : Bytes
  pub query : List (Bytes × Bytes)

pub record Request : Type 0 where
  pub method : Bytes
  pub url : Url
  pub basic_auth : Option (Bytes × Bytes)

pub record Response : Type 0 where
  pub status : ℕ
  pub body : Bytes

abbrev pub is_secure : Bool → Url → Bool
is_secure insecure u = insecure || same u.scheme (codes "https")

module _ (insecure : Bool) (parse_request_uri : Bytes → Option Url)
    (base64_decode : Bytes → Option Bytes) (send : Request → Result Response) where
  abbrev pub claim_request : Url → Request
  claim_request u = record { method = codes "POST"; url = u; basic_auth = none }

  abbrev if_url : Bytes → Option Url → Result Bytes
  if_url text none = err bad_access_url
  if_url text (some u) = ok text

  abbrev claimed : Result Response → Result Bytes
  claimed (err e) = err e
  claimed (ok resp) =
      if resp.status == 200
      then if_url (trim_space resp.body) (parse_request_uri (trim_space resp.body))
      else err (bad_status resp.status)

  abbrev claim_at : Option Url → Result Bytes
  claim_at none = err token_not_a_url
  claim_at (some u) =
      if is_secure insecure u then claimed (send (claim_request u)) else err https_required

  abbrev claim_decoded : Option Bytes → Result Bytes
  claim_decoded none = err token_not_base64
  claim_decoded (some claim_url) = claim_at (parse_request_uri claim_url)

  -- `ClaimSetupToken`.
  unfoldable pub claim_setup_token : Bytes → Result Bytes
  claim_setup_token setup_token = claim_decoded (base64_decode (trim_space setup_token))

pub record Account : Type 0 where
  pub id : Bytes
  pub org_name : Bytes
  pub name : Bytes
  pub currency : Bytes
  pub balance_cents : ℤ
  pub available_balance_cents : Option ℤ
  pub balance_date : Option Instant

-- An account of `simplefinAccountsResponse`.
pub record Entry : Type 0 where
  pub org_name : Bytes
  pub id : Bytes
  pub name : Bytes
  pub currency : Bytes
  pub balance : Bytes
  pub available_balance : Bytes
  pub balance_date : ℤ

pub record SimplefinAccountsResponse : Type 0 where
  pub accounts : List Entry
  pub errors : List Bytes

abbrev if_parsed : Result ℤ → Option ℤ
if_parsed (err e) = none
if_parsed (ok cents) = some cents

-- An available balance that cannot be read counts as none.
abbrev pub available : Bytes → Option ℤ
available text = if is_empty text then none else if_parsed (parse_money_to_cents text)

-- `time.Unix`, of seconds after 1970.
abbrev pub unix_date : ℤ → Option Instant
unix_date (pos ℕ.zero) = none
unix_date (pos (ℕ.suc n)) = some (ℕ.suc n * 1000000000)
unix_date (negsuc n) = none

abbrev pub account_of : Entry → ℤ → Account
account_of a cents = record {
  id = a.id;
  org_name = a.org_name;
  name = a.name;
  currency = a.currency;
  balance_cents = cents;
  available_balance_cents = available a.available_balance;
  balance_date = unix_date a.balance_date;
}

abbrev then_account : Entry → Result ℤ → Result (List Account) → Result (List Account)
then_account a (err e) rest = err e
then_account a (ok cents) (err e) = err e
then_account a (ok cents) (ok rest) = ok (account_of a cents ∷ rest)

-- The loop of `FetchAccounts`, up to the first balance that cannot be read.
unfoldable pub read_entries : List Entry → Result (List Account)
read_entries [] = ok []
read_entries (a ∷ rest) = then_account a (parse_money_to_cents a.balance) (read_entries rest)

-- `q.Set(key, value)`.
abbrev pub set_query : Bytes → Bytes → List (Bytes × Bytes) → List (Bytes × Bytes)
set_query key value [] = (key, value) ∷ []
set_query key value ((k, v) ∷ q) =
    let rest = set_query key value q in if same k key then rest else (k, v) ∷ rest

abbrev password_or_empty : Option Bytes → Bytes
password_or_empty none = []
password_or_empty (some password) = password

abbrev pub basic_auth_of : Option (Bytes × Option Bytes) → Option (Bytes × Bytes)
basic_auth_of none = none
basic_auth_of (some (username, password)) = some (username, password_or_empty password)

abbrev pub accounts_request : Url → Request
accounts_request u = record {
  method = codes "GET";
  url = record u { query = set_query (codes "balances-only") (codes "1") u.query };
  basic_auth = basic_auth_of u.user;
}

module _ (insecure : Bool) (parse : Bytes → Option Url) (send : Request → Result Response)
    (decode : Bytes → Option SimplefinAccountsResponse) where
  abbrev decoded : Option SimplefinAccountsResponse → Result (List Account)
  decoded none = err bad_response
  decoded (some r) = if length r.errors == 0 then read_entries r.accounts else err bridge_errors

  abbrev answered : Result Response → Result (List Account)
  answered (err e) = err e
  answered (ok resp) =
      if resp.status == 200 then decoded (decode resp.body) else err (bad_status resp.status)

  abbrev fetch_at : Option Url → Result (List Account)
  fetch_at none = err bad_access_url
  fetch_at (some u) =
      if is_secure insecure u then answered (send (accounts_request u)) else err https_required

  -- `FetchAccounts`.
  unfoldable pub fetch_accounts : Bytes → Result (List Account)
  fetch_accounts access_url = fetch_at (parse (trim_right_slashes access_url ++ codes "/accounts"))

-- `nullableString`.
abbrev nullable_string : Bytes → Option Bytes
nullable_string s = if is_empty s then none else some s

-- What the scheduler hands to `Upsert`; `nullableInt64Ptr` and `nullableTimePtr` keep the option.
abbrev pub synced : Account → Synced
synced a = record {
  simplefin_id = a.id;
  org_name = nullable_string a.org_name;
  name = a.name;
  currency = a.currency;
  balance_cents = a.balance_cents;
  available_balance_cents = a.available_balance_cents;
  balance_date = a.balance_date;
}

abbrev pub all_synced : List Account → List Synced
all_synced [] = []
all_synced (a ∷ rest) = synced a ∷ all_synced rest

abbrev pub synced_result : Result (List Account) → Result (List Synced)
synced_result (err e) = err e
synced_result (ok accounts) = ok (all_synced accounts)
