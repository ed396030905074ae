-- ===== src/Connectors/Columbiagaspa.antt =====
-- internal/connectors/columbiagaspa/columbiagaspa.go: logging in to the portal of Columbia Gas of
-- Pennsylvania and reading the bill. Its page search and its reading of amounts are, word for word,
-- those of billeriq.go.
use billtracker_plugin.Base.{
  ℕ, Bool, Option, none, some, List, [], ◌∷◌, ◌++◌, Bytes, codes, trim_space, is_space, ◌==◌,
  if◌then◌else◌, ◌&&◌, not,
}
use billtracker_plugin.Base.Int.{ℤ}
use billtracker_plugin.Errors.{
  Result, ok, err, bad_status, login_not_reached, not_on_page, bad_due_date,
}
use billtracker_plugin.Calendar.{Date}
use billtracker_plugin.Money
use billtracker_plugin.Connectors.{Credentials, BillSnapshot, Connector}
use billtracker_plugin.Connectors.Html
use billtracker_plugin.Connectors.Html.{Node, or_else}
use billtracker_plugin.Connectors.Billeriq.{Response, trim_right_slashes}
use billtracker_plugin.Connectors.Dates.{cut_name, parse_layout, long_form, short_form}

unfoldable pub find_first_by_class : Bytes → Node → Option Node
find_first_by_class = Html.find_first_by_class

unfoldable pub find_text_by_class : Bytes → Node → Option Bytes
find_text_by_class = Html.find_text_by_class

unfoldable pub parse_dollars_to_cents : Bytes → Result ℤ
parse_dollars_to_cents = Money.parse_dollars_to_cents

-- `\s` of a regular expression, which a vertical tab is not.
abbrev is_blank : ℕ → Bool
is_blank c = is_space c && not (c == 11)

unfoldable pub cut_blanks : Bytes → Bytes
cut_blanks [] = []
cut_blanks (c ∷ s) = let rest = cut_blanks s in if is_blank c then rest else c ∷ s

-- What `\s+` leaves, where there is a space to match.
abbrev behind_spaces : Bytes → Bytes → Bytes
behind_spaces whole [] = whole
behind_spaces whole (c ∷ s) = if is_blank c then cut_blanks s else whole

abbrev behind_prefix : Bytes → Option Bytes → Bytes
behind_prefix whole none = whole
behind_prefix whole (some rest) = behind_spaces whole rest

-- `dueDateOnPrefixRe.ReplaceAllString(s, "")`, with `(?i)^Due on\s+`.
unfoldable pub cut_due_on : Bytes → Bytes
cut_due_on s = behind_prefix s (cut_name (codes "Due on") s)

abbrev day_in : Bytes → Option Date
day_in s = or_else (parse_layout short_form s) (parse_layout long_form s)

-- `parseDueDate`.
unfoldable pub parse_due_date : Bytes → Option Date
parse_due_date s = day_in (trim_space (cut_due_on (trim_space s)))

abbrev with_cents : Date → Result ℤ → Result BillSnapshot
with_cents due (err e) = err e
with_cents due (ok cents) =
    ok (record { amount_cents = cents; due_date = due; account_number = [] })

abbrev with_due : Bytes → Option Date → Result BillSnapshot
with_due amount none = err bad_due_date
with_due amount (some due) = with_cents due (parse_dollars_to_cents amount)

abbrev with_texts : Option Bytes → Option Bytes → Result BillSnapshot
with_texts none amount = err (not_on_page (codes "balance-due-on"))
with_texts (some due) none = err (not_on_page (codes "current-charges amount"))
with_texts (some due) (some amount) = with_due amount (parse_due_date due)

abbrev values_in : Option Node → Result BillSnapshot
values_in none = err login_not_reached
values_in (some root) =
    with_texts (find_text_by_class (codes "balance-due-on") root)
      (find_text_by_class (codes "h1") root)

-- The reading of the dashboard.
unfoldable pub read_bill : Node → Result BillSnapshot
read_bill doc = values_in (find_first_by_class (codes "box--balance-details") doc)

abbrev logged_in : Result Response → Result BillSnapshot
logged_in (err e) = err e
logged_in (ok resp) =
    if resp.status == 200 then read_bill resp.doc else err (bad_status resp.status)

abbrev pub login_form : Credentials → List (Bytes × Bytes)
login_form creds =
    (codes "username", creds.username)
    ∷ (codes "password", creds.password)
    ∷ (codes "rememberme", codes "true")
    ∷ []

-- `post` is what the site answers to a POST of a form.
module _ (post : Bytes → List (Bytes × Bytes) → Result Response) where
  -- `FetchBill`.
  unfoldable pub fetch_bill : Bytes → Credentials → Result BillSnapshot
  fetch_bill base creds =
      logged_in (post (trim_right_slashes base ++ codes "/login") (login_form creds))

  -- The connector that `init` registers.
  unfoldable pub client : Connector
  client = record {
    slug = codes "columbiagaspa";
    fetch_bill = fetch_bill (codes "https://myaccount.columbiagaspa.com");
  }
