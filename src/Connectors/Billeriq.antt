-- ===== src/Connectors/Billeriq.antt =====
-- internal/connectors/billeriq/billeriq.go: logging in to a billeriq.com site and reading the bill.
-- What the site answers is a parameter, with the page already parsed.
pub mod Reads
use billtracker_plugin.Base.{
  ℕ, Bool, true, false, Option, none, some, List, [], ◌∷◌, ◌++◌, reverse, Bytes, codes, is_empty,
  trim_space, cut_prefix, ◌==◌, if◌then◌else◌,
}
use billtracker_plugin.Base.Int.{ℤ}
use billtracker_plugin.Errors.{
  Error, Result, ok, err, tenant_required, bad_status, login_not_reached, not_on_page, bad_due_date,
}
use billtracker_plugin.Calendar.{Date}
use billtracker_plugin.Money.{parse_dollars_to_cents}
use billtracker_plugin.Connectors.{Credentials, BillSnapshot, Connector}
use billtracker_plugin.Connectors.Html.{
  Node, or_else, find_first_by_class, find_text_by_class, find_hidden_input_value,
}
use billtracker_plugin.Connectors.Dates.{
  Layout, parse_layout, padded_form, slashed_form, long_form, short_form, iso_form,
}

-- An answer: its status, the path of the last request, and its body as `html.Parse` reads it.
pub record Response : Type 0 where
  pub status : ℕ
  pub path : Bytes
  pub doc : Node

unfoldable pub trim_slashes : Bytes → Bytes
trim_slashes [] = []
trim_slashes (c ∷ s) = let rest = trim_slashes s in if c == b'/' then rest else c ∷ s

-- `strings.TrimRight(s, "/")`.
abbrev pub trim_right_slashes : Bytes → Bytes
trim_right_slashes s = reverse (trim_slashes (reverse s))

-- `strings.Contains(s, part)`.
unfoldable pub contains : Bytes → Bytes → Bool
contains part [] = is_empty part
contains part (c ∷ s) =
    let further = contains part s in
    elim (cut_prefix (c ∷ s) part) [ some _ ↦ true | none ↦ further ]

-- `dueDateFormats`.
abbrev due_date_formats : List Layout
due_date_formats = padded_form ∷ slashed_form ∷ long_form ∷ short_form ∷ iso_form ∷ []

unfoldable pub first_layout : List Layout → Bytes → Option Date
first_layout [] s = none
first_layout (l ∷ ls) s = or_else (parse_layout l s) (first_layout ls s)

-- `parseDueDate`.
unfoldable pub parse_due_date : Bytes → Option Date
parse_due_date s = first_layout due_date_formats (trim_space s)

abbrev pub text_or_empty : Option Bytes → Bytes
text_or_empty none = []
text_or_empty (some s) = s

abbrev with_cents : Date → Bytes → Result ℤ → Result BillSnapshot
with_cents due account (err e) = err e
with_cents due account (ok cents) =
    ok (record { amount_cents = cents; due_date = due; account_number = account })

abbrev with_due : Bytes → Bytes → Option Date → Result BillSnapshot
with_due amount account none = err bad_due_date
with_due amount account (some due) = with_cents due account (parse_dollars_to_cents amount)

abbrev with_texts : Bytes → Option Bytes → Option Bytes → Result BillSnapshot
with_texts account none amount = err (not_on_page (codes "due-date"))
with_texts account (some due) none = err (not_on_page (codes "invoice-amount"))
with_texts account (some due) (some amount) = with_due amount account (parse_due_date due)

abbrev pub root_of : Node → Option Node → Node
root_of doc none = doc
root_of doc (some body) = body

-- The values in an element of the page.
abbrev pub values_in : Node → Result BillSnapshot
values_in root =
    with_texts
      (trim_space (text_or_empty (find_text_by_class (codes "account-display-first-line") root)))
      (find_text_by_class (codes "due-date") root)
      (find_text_by_class (codes "invoice-amount") root)

-- The reading of the BillPay page.
unfoldable pub read_bill : Node → Result BillSnapshot
read_bill doc = values_in (root_of doc (find_first_by_class (codes "collection-body") doc))

abbrev pub on_bill_pay : Response → Result BillSnapshot
on_bill_pay resp =
    if resp.status == 200
    then (if contains (codes "/BillPay") resp.path
        then read_bill resp.doc
        else err login_not_reached)
    else err (bad_status resp.status)

abbrev logged_in : Result Response → Result BillSnapshot
logged_in (err e) = err e
logged_in (ok resp) = on_bill_pay resp

abbrev tokens : Option Bytes → Option Bytes → Result (Bytes × Bytes)
tokens none fast_pay = err (not_on_page (codes "__RequestVerificationToken"))
tokens (some token) none = err (not_on_page (codes "FastPaySelection"))
tokens (some token) (some fast_pay) = ok (token, fast_pay)

-- `fetchLoginTokens`, on the answer to its GET.
unfoldable pub fetch_login_tokens : Result Response → Result (Bytes × Bytes)
fetch_login_tokens (err e) = err e
fetch_login_tokens (ok resp) =
    if resp.status == 200
    then tokens (find_hidden_input_value (codes "__RequestVerificationToken") resp.doc)
        (find_hidden_input_value (codes "FastPaySelection") resp.doc)
    else err (bad_status resp.status)

abbrev pub login_form : Credentials → Bytes × Bytes → List (Bytes × Bytes)
login_form creds (token, fast_pay) =
    (codes "Login", creds.username)
    ∷ (codes "Password", creds.password)
    ∷ (codes "__RequestVerificationToken", token)
    ∷ (codes "FastPaySelection", fast_pay)
    ∷ []

-- `get` and `post` are what the site answers, redirects followed, to a GET of a URL and to a POST of
-- a form.
module _ (get : Bytes → Result Response)
    (post : Bytes → List (Bytes × Bytes) → Result Response) where
  abbrev pub page_url : Bytes → Bytes → Bytes → Bytes
  page_url base tenant page = trim_right_slashes base ++ codes "/ebpp/" ++ tenant ++ page

  abbrev log_in : Bytes → Credentials → Result (Bytes × Bytes) → Result BillSnapshot
  log_in base creds (err e) = err e
  log_in base creds (ok found) =
      logged_in (post (page_url base creds.tenant (codes "/Login")) (login_form creds found))

  -- `FetchBill`.
  unfoldable pub fetch_bill : Bytes → Credentials → Result BillSnapshot
  fetch_bill base creds =
      if is_empty creds.tenant
      then err tenant_required
      else log_in base creds
          (fetch_login_tokens (get (page_url base creds.tenant (codes "/Login/Index"))))

  -- The connector that `init` registers.
  unfoldable pub client : Connector
  client = record {
    slug = codes "billeriq";
    fetch_bill = fetch_bill (codes "https://fnbezinvoice.billeriq.com");
  }
