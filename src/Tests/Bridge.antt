-- ===== src/Tests/Bridge.antt =====
-- The SimpleFIN bridge.
use billtracker_plugin.Base.{
  ◌≡◌, ◌↔◌, refl, [], ◌∷◌, ◌++◌, none, some, true, false, Bytes, codes, List, All, Any, map, arith,
  same, exists, is_empty, trim_space,
}
use billtracker_plugin.Base.Int.{pos}
use billtracker_plugin.Errors.{ok}
use billtracker_plugin.Crypto.{encrypt, decrypt}
use billtracker_plugin.Money.Text.{money}
use billtracker_plugin.SimpleFin.Dial.{mapped_prefix, is_disallowed_ip, safe_dial_context}
use billtracker_plugin.SimpleFin.{
  Url, Response, Entry, SimplefinAccountsResponse, account_of, fetch_accounts,
}
use billtracker_plugin.SimpleFin.Addresses.{
  ipv4, is_in, reserved, is_disallowed_ip_iff_reserved, Address, v4, mapped, other, bytes_of,
  Chooses, safe_dial_context-Chooses,
}
use billtracker_plugin.SimpleFin.Balances.{Exchange, IsFetched, fetch_accounts_iff}
use billtracker_plugin.Models.Rows.{Account, SimpleFinConnection, Tables}
use billtracker_plugin.Models.Accounts.{first_synced}
use billtracker_plugin.Models.Database.Quiet.{quiet}
use billtracker_plugin.Scheduler.{refresh_simplefin_now}
use billtracker_plugin.Scheduler.Balances.{ShowsEntry, ask_bridge, refresh_shows_balances}
use billtracker_plugin.Handlers.Forms.{Form}
use billtracker_plugin.Handlers.Settings.{refreshing, connect_simplefin}
use billtracker_plugin.Handlers.Settings.Connecting.{Claim, claim, connect_simplefin_opens}
use billtracker_plugin.Tests.Jobs.{plain, noon, empty}

is_disallowed_ip_iff_reserved_example :
    (is_disallowed_ip (172 ∷ 31 ∷ 0 ∷ 9 ∷ []) ≡ exists (is_in (ipv4 172 31 0 9)) reserved)
    × (is_disallowed_ip (mapped_prefix ++ 172 ∷ 31 ∷ 0 ∷ 9 ∷ [])
        ≡ exists (is_in (ipv4 172 31 0 9)) reserved)
is_disallowed_ip_iff_reserved_example =
    is_disallowed_ip_iff_reserved 172 31 0 9 (omega arith) (omega arith) (omega arith) (omega arith)

-- A host with a private address, a link-local IPv6 one, and a public one.
abbrev resolved : List Address
resolved =
    mapped 10 0 0 1
    ∷ other (254 ∷ 128 ∷ 0 ∷ 0 ∷ 0 ∷ 0 ∷ 0 ∷ 0 ∷ 0 ∷ 0 ∷ 0 ∷ 0 ∷ 0 ∷ 0 ∷ 0 ∷ 1 ∷ [])
    ∷ v4 8 8 8 8
    ∷ []

safe_dial_context-Chooses_example :
    Chooses false
      (λ ip. ok ip)
      resolved
      (safe_dial_context {C = Bytes} false
        (λ host. ok (map bytes_of resolved))
        (λ ip port. ok ip)
        (ok (codes "bridge", codes "443")))
safe_dial_context-Chooses_example =
    safe_dial_context-Chooses {C = Bytes} false (λ host. ok (map bytes_of resolved))
      (λ ip port. ok ip) (codes "bridge") (codes "443") resolved
      (
        (omega arith, omega arith, omega arith, omega arith),
        (tt, ((omega arith, omega arith, omega arith, omega arith), tt)),
      )
      refl

-- A bridge that reports one account.
abbrev bridge_url : Url
bridge_url = record {
  scheme = codes "https";
  user = some (codes "u", some (codes "p"));
  rest = codes "bridge/accounts";
  query = [];
}

abbrev checking : Entry
checking = record {
  org_name = codes "Bank";
  id = codes "a1";
  name = codes "Checking";
  currency = codes "USD";
  balance = money (pos 120345);
  available_balance = [];
  balance_date = pos 0;
}

abbrev bridge_answer : SimplefinAccountsResponse
bridge_answer = record { accounts = checking ∷ []; errors = [] }

abbrev bridge_response : Response
bridge_response = record { status = 200; body = [] }

https_is_https : same (codes "https") (codes "https") ≡ true
unfolding same
https_is_https = refl

bridge-Exchange :
    Exchange false
      (λ text. some bridge_url)
      (λ r. ok bridge_response)
      (λ body. some bridge_answer)
      (codes "https://u:p@bridge")
      (checking ∷ [])
bridge-Exchange = record {
  url = bridge_url;
  parsed = refl;
  secure = https_is_https;
  response = bridge_response;
  sent = refl;
  status_ok = refl;
  answer = bridge_answer;
  read = refl;
  no_errors = refl;
  entries_are = refl;
}

fetch_accounts_iff_example :
    (fetch_accounts false
        (λ text. some bridge_url)
        (λ r. ok bridge_response)
        (λ body. some bridge_answer)
        (codes "https://u:p@bridge")
      ≡ ok (account_of checking (pos 120345) ∷ []))
    ↔ IsFetched false
        (λ text. some bridge_url)
        (λ r. ok bridge_response)
        (λ body. some bridge_answer)
        (codes "https://u:p@bridge")
        (account_of checking (pos 120345) ∷ [])
fetch_accounts_iff_example =
    fetch_accounts_iff false (λ text. some bridge_url) (λ r. ok bridge_response)
      (λ body. some bridge_answer) (codes "https://u:p@bridge")
      (account_of checking (pos 120345) ∷ [])

-- A stored connection, encrypted under the cipher of the other tests.
abbrev stored : SimpleFinConnection
stored = record {
  id = 1;
  encrypted_access_url = 7 ∷ codes "https://u:p@bridge";
  connected_at = 0;
  last_synced_at = none;
  last_sync_error = none;
}

abbrev connected : Tables
connected = record empty { simplefin_connections = stored ∷ []; next_simplefin = 2 }

stored_opens : decrypt plain stored.encrypted_access_url ≡ ok (codes "https://u:p@bridge")
unfolding decrypt
stored_opens = refl

-- An account with an old balance, from an earlier refresh.
abbrev stale : Account
stale = first_synced 1 5 (record {
  simplefin_id = codes "a1";
  org_name = none;
  name = codes "Old";
  currency = codes "USD";
  balance_cents = pos 1;
  available_balance_cents = none;
  balance_date = none;
})

abbrev stale_tables : Tables
stale_tables = record connected { accounts = stale ∷ []; next_account = 2 }

refresh_shows_balances_example :
    All
      (λ e.
        Any
          (ShowsEntry 1000000 e (pos 120345))
          (refresh_simplefin_now plain
            (ask_bridge plain noon false
              (λ text. some bridge_url)
              (λ r. ok bridge_response)
              (λ body. some bridge_answer))
            noon
            (quiet stale_tables)).1.tables.accounts)
      (checking ∷ [])
refresh_shows_balances_example =
    refresh_shows_balances plain noon false (λ text. some bridge_url) (λ r. ok bridge_response)
      (λ body. some bridge_answer) stored [] (codes "https://u:p@bridge") (λ e. pos 120345)
      (checking ∷ []) stale_tables refl stored_opens bridge-Exchange ((refl, refl), tt) (tt, tt)

-- A form with a setup token, and a bridge that gives an access URL for it.
abbrev token_form : Form
token_form name = codes "dG9rZW4="

abbrev claim_response : Response
claim_response = record { status = 200; body = codes "https://u:p@bridge" }

claim_response-Claim :
    Claim false
      (λ text. some bridge_url)
      (λ text. some (codes "https://claim"))
      (λ r. ok claim_response)
      (trim_space (codes "dG9rZW4="))
      (codes "https://u:p@bridge")
unfolding trim_space
claim_response-Claim = record {
  claim_url = codes "https://claim";
  decoded = refl;
  url = bridge_url;
  parsed = refl;
  secure = https_is_https;
  response = claim_response;
  sent = refl;
  status_ok = refl;
  access = refl;
  access_parsed = bridge_url;
  access_is_url = refl;
}

token_given : is_empty (trim_space (codes "dG9rZW4=")) ≡ false
unfolding trim_space
token_given = refl

url_sealed :
    encrypt plain (some (7 ∷ [])) (codes "https://u:p@bridge") ≡ ok (7 ∷ codes "https://u:p@bridge")
unfolding encrypt
url_sealed = refl

connect_simplefin_opens_example :
    let (reply, after) =
      connect_simplefin noon
        (pos 90)
        plain
        (claim noon
          (pos 90)
          plain
          false
          (λ text. some bridge_url)
          (λ text. some (codes "https://claim"))
          (λ r. ok claim_response))
        (some (7 ∷ []))
        token_form
        (quiet empty) in
    (reply ≡ ok refreshing)
    × (conn : SimpleFinConnection) × (after.tables.simplefin_connections ≡ conn ∷ [])
    × (decrypt plain conn.encrypted_access_url ≡ ok (codes "https://u:p@bridge"))
connect_simplefin_opens_example =
    connect_simplefin_opens noon (pos 90) plain false (λ text. some bridge_url)
      (λ text. some (codes "https://claim")) (λ r. ok claim_response) token_form
      (codes "https://u:p@bridge") (7 ∷ []) (7 ∷ codes "https://u:p@bridge") empty token_given
      claim_response-Claim refl url_sealed
