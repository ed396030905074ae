-- ===== src/Scheduler/Portal.antt =====
-- A refresh of a vendor connection over the billeriq connector: from the site's pages to the tables.
use billtracker_plugin.Base.{◌≡◌, ap, ◌∙◌, true, false, List, Bytes, codes, is_empty}
use billtracker_plugin.Base.Int.{fits_int4}
use billtracker_plugin.Errors.{Result, ok}
use billtracker_plugin.Clock.{Clock}
use billtracker_plugin.Crypto.{Aead, decrypt}
use billtracker_plugin.Connectors
use billtracker_plugin.Connectors.{Registry, Credentials, Connector, BillSnapshot}
use billtracker_plugin.Connectors.Billeriq.{Response, contains, page_url, login_form, client}
use billtracker_plugin.Connectors.Billeriq.Reads.{ShowsBill, ShowsLogin, fetch_bill_shown}
use billtracker_plugin.Models.Rows.{VendorConnection, Tables}
use billtracker_plugin.Models.Database.Quiet.{quiet}
use billtracker_plugin.Scheduler.{credentials, refresh_vendor_now}
use billtracker_plugin.Scheduler.Vendor.{vendor_answer, then_unlock, then_ask}
use billtracker_plugin.Scheduler.Outcome.{billed, answered_refresh_stores}

abbrev pub base_url : Bytes
base_url = codes "https://fnbezinvoice.billeriq.com"

-- A site that lets the customer in and then shows the bill.
pub record Site (get : Bytes → Result Response)
    (post : Bytes → List (Bytes × Bytes) → Result Response) (creds : Credentials)
    (bill : BillSnapshot) : Type 0 where
  pub has_tenant : is_empty creds.tenant ≡ false
  pub login : Response
  pub login_got : get (page_url get post base_url creds.tenant (codes "/Login/Index")) ≡ ok login
  pub login_ok : login.status ≡ 200
  pub token : Bytes
  pub fast_pay : Bytes
  pub login_shown : ShowsLogin login.doc token fast_pay
  pub page : Response
  pub posted :
      post
        (page_url get post base_url creds.tenant (codes "/Login"))
        (login_form creds (token, fast_pay))
      ≡ ok page
  pub page_ok : page.status ≡ 200
  pub at_bill_pay : contains (codes "/BillPay") page.path ≡ true
  pub bill_shown : ShowsBill page.doc bill

module _ (get : Bytes → Result Response) (post : Bytes → List (Bytes × Bytes) → Result Response)
    (gcm : Aead) (registry : Registry) (clock : Clock) (conn : VendorConnection) where
  vendor_answer-Site :
      (password : Bytes) (bill : BillSnapshot)
      → Connectors.get conn.connector registry ≡ ok (client get post)
      → decrypt gcm conn.encrypted_password ≡ ok password
      → Site get post (credentials gcm registry conn password) bill
      → vendor_answer gcm registry clock conn ≡ ok bill
  unfolding client
  vendor_answer-Site password bill registered opened site =
      ap (then_unlock gcm registry clock conn) registered
      ∙ ap (then_ask gcm registry clock conn (client get post)) opened
      ∙ fetch_bill_shown get post base_url (credentials gcm registry conn password) site.login
          site.page site.token site.fast_pay bill site.has_tenant site.login_got site.login_ok
          site.login_shown site.posted site.page_ok site.at_bill_pay site.bill_shown

  -- A connection of the billeriq connector whose password opens, over a site that lets the customer
  -- in and shows a bill with an amount that INTEGER holds: the refresh, on a database that fails
  -- nothing, reports no error and leaves the tables as they were, but for this. The connection's bill
  -- has the amount shown. Where something is owed, a number is taken from the instances, and where
  -- the bill is there and has no instance on the day shown, an unpaid one with this number comes
  -- behind the others. The connection is synced now, without an error, under the account number
  -- shown, if there is one.
  pub refresh_stores_shown_bill :
      (password : Bytes) (bill : BillSnapshot) (t : Tables)
      → Connectors.get conn.connector registry ≡ ok (client get post)
      → decrypt gcm conn.encrypted_password ≡ ok password
      → Site get post (credentials gcm registry conn password) bill
      → fits_int4 bill.amount_cents ≡ true
      → refresh_vendor_now gcm registry clock conn (quiet t)
        ≡ (ok tt, quiet (billed clock.now conn bill t))
  refresh_stores_shown_bill password bill t registered opened site fits =
      answered_refresh_stores gcm registry clock conn bill t
        (vendor_answer-Site password bill registered opened site) fits
