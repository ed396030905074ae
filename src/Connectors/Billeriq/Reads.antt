-- ===== src/Connectors/Billeriq/Reads.antt =====
-- What the connector makes of a site that answers: from the login page to the bill.
use billtracker_plugin.Base.{
  ◌≡◌, ap, ◌∙◌, true, false, Option, some, List, Bytes, codes, is_empty, trim_space, first, select,
}
use mathlib.Core.Option
use billtracker_plugin.Base.Int.{fits_int64}
use billtracker_plugin.Errors.{Result, ok}
use billtracker_plugin.Money.{is_kept}
use billtracker_plugin.Money.Text.{money, parse_dollars_to_cents-money}
use billtracker_plugin.Connectors.{Credentials, BillSnapshot}
use billtracker_plugin.Connectors.Html.{Node, carries, find_text_by_class, find_hidden_input_value}
use billtracker_plugin.Connectors.Html.Order.{
  document_order, trimmed_text, input_named, value_of, searches_in_document_order,
}
use billtracker_plugin.Connectors.Billeriq.{
  Response, contains, parse_due_date, text_or_empty, root_of, values_in, read_bill, page_url,
  login_form, fetch_login_tokens, fetch_bill,
}

-- The first element of a class, and the first input of a name, as a reader of the page meets them.
abbrev pub met : Bytes → Node → Option Node
met class root = first (carries class) (document_order root)

abbrev pub met_input : Bytes → Node → Option Node
met_input name root = first (input_named name) (document_order root)

-- The element that holds the bill, or the whole page where there is none.
abbrev pub bill_part : Node → Node
bill_part doc = root_of doc (met (codes "collection-body") doc)

-- A page that shows the bill: its due date and amount stand in the first elements of their classes.
pub record ShowsBill (doc : Node) (bill : BillSnapshot) : Type 0 where
  pub due : Node
  pub due_met : met (codes "due-date") (bill_part doc) ≡ some due
  pub due_reads : parse_due_date (trimmed_text due) ≡ some bill.due_date
  pub amount : Node
  pub amount_met : met (codes "invoice-amount") (bill_part doc) ≡ some amount
  pub amount_reads : select is_kept (trimmed_text amount) ≡ money bill.amount_cents
  pub amount_fits : fits_int64 bill.amount_cents ≡ true
  pub account_reads :
      trim_space (
        text_or_empty
          (Option.map trimmed_text (met (codes "account-display-first-line") (bill_part doc))))
      ≡ bill.account_number

-- A login page with its two hidden inputs.
pub record ShowsLogin (doc : Node) (token fast_pay : Bytes) : Type 0 where
  pub token_met :
      Option.map value_of (met_input (codes "__RequestVerificationToken") doc) ≡ some token
  pub fast_pay_met : Option.map value_of (met_input (codes "FastPaySelection") doc) ≡ some fast_pay

text_met :
    (class : Bytes) (root : Node)
    → find_text_by_class class root ≡ Option.map trimmed_text (met class root)
text_met class root = (searches_in_document_order class root).1

input_met :
    (name : Bytes) (root : Node)
    → find_hidden_input_value name root ≡ Option.map value_of (met_input name root)
input_met name root = (searches_in_document_order name root).2

found_text :
    (class : Bytes) (root n : Node)
    → met class root ≡ some n
    → find_text_by_class class root ≡ some (trimmed_text n)
found_text class root n e = text_met class root ∙ ap (Option.map trimmed_text) e

read_bill_shown : (doc : Node) (bill : BillSnapshot) → ShowsBill doc bill → read_bill doc ≡ ok bill
unfolding read_bill
read_bill_shown doc bill shows =
    ap (λ b. values_in (root_of doc b)) (searches_in_document_order (codes "collection-body") doc).0
    ∙ rw (
      found_text (codes "due-date") (bill_part doc) shows.due shows.due_met,
      found_text (codes "invoice-amount") (bill_part doc) shows.amount shows.amount_met,
      text_met (codes "account-display-first-line") (bill_part doc),
      shows.account_reads,
      shows.due_reads,
      parse_dollars_to_cents-money (trimmed_text shows.amount) bill.amount_cents shows.amount_fits
          shows.amount_reads,
    )

login_tokens_shown :
    (login : Response) (token fast_pay : Bytes)
    → login.status ≡ 200
    → ShowsLogin login.doc token fast_pay
    → fetch_login_tokens (ok login) ≡ ok (token, fast_pay)
unfolding fetch_login_tokens
login_tokens_shown login token fast_pay status shows = rw (
  status,
  input_met (codes "__RequestVerificationToken") login.doc,
  input_met (codes "FastPaySelection") login.doc,
  shows.token_met,
  shows.fast_pay_met,
)

-- Where the login page answers 200 with its two hidden inputs, and the login with just these and the
-- credentials answers 200 at a BillPay path with a page that shows the bill, the fetch returns that
-- bill: its amount to the cent, its due date, and the account number.
pub fetch_bill_shown :
    (get : Bytes → Result Response) (post : Bytes → List (Bytes × Bytes) → Result Response)
    (base : Bytes) (creds : Credentials) (login page : Response) (token fast_pay : Bytes)
    (bill : BillSnapshot)
    → is_empty creds.tenant ≡ false
    → get (page_url get post base creds.tenant (codes "/Login/Index")) ≡ ok login
    → login.status ≡ 200
    → ShowsLogin login.doc token fast_pay
    → post
        (page_url get post base creds.tenant (codes "/Login"))
        (login_form creds (token, fast_pay))
      ≡ ok page
    → page.status ≡ 200
    → contains (codes "/BillPay") page.path ≡ true
    → ShowsBill page.doc bill
    → fetch_bill get post base creds ≡ ok bill
unfolding fetch_bill
fetch_bill_shown get post base creds login page token fast_pay bill tenant got login_ok shows posted
      page_ok path shown =
    rw (
      tenant,
      got,
      login_tokens_shown login token fast_pay login_ok shows,
      posted,
      page_ok,
      path,
      read_bill_shown page.doc bill shown,
    )
