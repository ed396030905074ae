-- ===== src/Tests/Outside.antt =====
-- Amounts and vendors' pages.
use billtracker_plugin.Base.{
  ◌<◌, ◌^◌, ◌≡◌, ◌↔◌, cut_prefix, refl, [], ◌∷◌, none, true, Bytes, codes, List, arith, same, first,
  trim_space,
}
use mathlib.Core.Option
use billtracker_plugin.Base.Int.{pos, negsuc, wrap_int64}
use billtracker_plugin.Base.Decimal.{decimal}
use billtracker_plugin.Errors.{Result, ok}
use billtracker_plugin.Calendar.{date, days_in_month}
use billtracker_plugin.Crypto.{decrypt}
use billtracker_plugin.Money.{parse_money_to_cents}
use billtracker_plugin.Money.Text.{money, plain_money, parse_money_to_cents_bound}
use billtracker_plugin.Connectors.{Credentials, BillSnapshot}
use billtracker_plugin.Connectors.Html.{
  Node, node, no_more, then_node, element, text_node, carries, text_content, attr, fields_behind,
  find_first_by_class, find_text_by_class, find_hidden_input_value,
}
use billtracker_plugin.Connectors.Html.Order.{
  document_order, trimmed_text, input_named, value_of, searches_in_document_order,
}
use billtracker_plugin.Connectors.Dates.{read_layout, get_num, get_year}
use billtracker_plugin.Connectors.Billeriq
use billtracker_plugin.Connectors.Billeriq.{
  fetch_bill, parse_due_date, first_layout, contains, trim_slashes,
}
use billtracker_plugin.Connectors.Billeriq.Reads.{ShowsBill, ShowsLogin, fetch_bill_shown}
use billtracker_plugin.Models.Database.Quiet.{quiet}
use billtracker_plugin.Connectors
use billtracker_plugin.Connectors.{Registry}
use billtracker_plugin.Connectors.Billeriq.{client}
use billtracker_plugin.Models.Rows.{VendorConnection, Tables}
use billtracker_plugin.Scheduler.{credentials, refresh_vendor_now}
use billtracker_plugin.Scheduler.Outcome.{billed}
use billtracker_plugin.Scheduler.Portal.{Site, refresh_stores_shown_bill}
use billtracker_plugin.Tests.Jobs.{plain, rented, noon}

-- One cent more than int64 holds.
parse_money_to_cents_bound_example :
    (parse_money_to_cents (plain_money 9223372036854775808)
      ≡ ok (wrap_int64 (pos 9223372036854775808)))
    × ((parse_money_to_cents (plain_money 9223372036854775808) ≡ ok (pos 9223372036854775808))
        ↔ (9223372036854775808 < 2 ^ 63))
parse_money_to_cents_bound_example = parse_money_to_cents_bound 9223372036854775808 (omega arith)

-- Minus 42 dollars and 50 cents.
money_text : money (negsuc 4249) ≡ codes "-42.50"
unfolding decimal
money_text = refl

-- An element of a class with a text in it.
abbrev labelled : Bytes → Bytes → Node
labelled class text =
    node element (codes "span") ((codes "class", class) ∷ [])
      (then_node (node text_node text [] no_more) no_more)

abbrev input : Bytes → Bytes → Node
input name value =
    node element (codes "input") ((codes "name", name) ∷ (codes "value", value) ∷ []) no_more

abbrev amount_span : Node
amount_span = labelled (codes "big invoice-amount") (codes "$42.50")

abbrev due_span : Node
due_span = labelled (codes "due-date") (codes " 3/9/2026")

abbrev bill_page : Node
bill_page = node element (codes "div") [] (
    then_node (labelled (codes "account-display-first-line") (codes "77"))
      (then_node due_span (then_node amount_span no_more)))

abbrev login_page : Node
login_page = node element (codes "form") [] (
    then_node (input (codes "__RequestVerificationToken") (codes "t"))
      (then_node (input (codes "FastPaySelection") (codes "f")) no_more))

searches_in_document_order_example :
    (find_first_by_class (codes "due-date") bill_page
      ≡ first (carries (codes "due-date")) (document_order bill_page))
    × (find_text_by_class (codes "due-date") bill_page
        ≡ Option.map trimmed_text (first (carries (codes "due-date")) (document_order bill_page)))
    × (find_hidden_input_value (codes "due-date") bill_page
        ≡ Option.map value_of (first (input_named (codes "due-date")) (document_order bill_page)))
searches_in_document_order_example = searches_in_document_order (codes "due-date") bill_page

abbrev owed : BillSnapshot
owed = record { amount_cents = pos 4250; due_date = date 2026 3 9; account_number = codes "77" }

bill_shown : ShowsBill bill_page owed
unfolding document_order attr fields_behind same text_content trim_space parse_due_date first_layout
    read_layout get_num get_year days_in_month decimal
bill_shown = record {
  due = due_span;
  due_met = refl;
  due_reads = refl;
  amount = amount_span;
  amount_met = refl;
  amount_reads = refl;
  amount_fits = refl;
  account_reads = refl;
}

login_shown : ShowsLogin login_page (codes "t") (codes "f")
unfolding document_order attr same
login_shown = record { token_met = refl; fast_pay_met = refl }

abbrev customer : Credentials
customer = record { tenant = codes "town"; username = codes "u"; password = codes "p" }

abbrev login_answer : Billeriq.Response
login_answer = record { status = 200; path = codes "/ebpp/town/Login"; doc = login_page }

abbrev bill_answer : Billeriq.Response
bill_answer = record { status = 200; path = codes "/ebpp/town/BillPay"; doc = bill_page }

at_bill_pay : contains (codes "/BillPay") (codes "/ebpp/town/BillPay") ≡ true
unfolding contains cut_prefix
at_bill_pay = refl

fetch_bill_shown_example :
    fetch_bill (λ url. ok login_answer) (λ url form. ok bill_answer) (codes "https://b") customer
    ≡ ok owed
fetch_bill_shown_example =
    fetch_bill_shown (λ url. ok login_answer) (λ url form. ok bill_answer) (codes "https://b")
      customer login_answer bill_answer (codes "t") (codes "f") owed refl refl refl login_shown refl
      refl at_bill_pay bill_shown

abbrev site_get : Bytes → Result Billeriq.Response
site_get url = ok login_answer

abbrev site_post : Bytes → List (Bytes × Bytes) → Result Billeriq.Response
site_post url form = ok bill_answer

-- The rent's connection to the site, with the password of the other tests' cipher.
abbrev portal : VendorConnection
portal = record {
  id = 1;
  bill_definition_id = 1;
  connector = codes "billeriq";
  tenant = codes "town";
  username = codes "u";
  encrypted_password = 7 ∷ codes "p";
  last_account_number = none;
  last_synced_at = none;
  last_sync_error = none;
  bootstrap_managed = true;
}

abbrev connectors : Registry
connectors = client site_get site_post ∷ []

client_found : Connectors.get (codes "billeriq") connectors ≡ ok (client site_get site_post)
unfolding Connectors.get client same
client_found = refl

password_opens : decrypt plain portal.encrypted_password ≡ ok (codes "p")
unfolding decrypt
password_opens = refl

portal-Site : Site site_get site_post (credentials plain connectors portal (codes "p")) owed
portal-Site = record {
  has_tenant = refl;
  login = login_answer;
  login_got = refl;
  login_ok = refl;
  token = codes "t";
  fast_pay = codes "f";
  login_shown = login_shown;
  page = bill_answer;
  posted = refl;
  page_ok = refl;
  at_bill_pay = at_bill_pay;
  bill_shown = bill_shown;
}

abbrev linked : Tables
linked = record rented { vendor_connections = portal ∷ [] }

refresh_stores_shown_bill_example :
    refresh_vendor_now plain connectors noon portal (quiet linked)
    ≡ (ok tt, quiet (billed 1000000 portal owed linked))
refresh_stores_shown_bill_example =
    refresh_stores_shown_bill site_get site_post plain connectors noon portal (codes "p") owed
      linked client_found password_opens portal-Site refl
