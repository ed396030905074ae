-- ===== src/Server/Safe.antt =====
-- The server's handlers, and the consistency of the tables.
use billtracker_plugin.Base.{Bool, true, false, Option, none, some, List, Bytes, codes, same}
use billtracker_plugin.Base.Int.{ℤ}
use billtracker_plugin.Errors.{Error}
use billtracker_plugin.Calendar.{Date}
use billtracker_plugin.Clock.{Clock}
use billtracker_plugin.Crypto.{Aead, encrypt}
use billtracker_plugin.Crypto.Hex
use billtracker_plugin.Models.Rows.{Instant}
use billtracker_plugin.Models.Database.{Exec, pure, fail}
use billtracker_plugin.Models.Database.Keeps.{
  Keeps, Keeps-pure, Keeps-fail, Keeps-if, Keeps-attempt, Keeps-lift, Keeps-bind,
}
use billtracker_plugin.Models.Consistent.{IsConsistent}
use billtracker_plugin.Models.Consistent.Bills.{list_all-IsConsistent}
use billtracker_plugin.Models.Consistent.Accounts.{
  settings_get-IsConsistent, settings_set-IsConsistent, simplefin_get-IsConsistent,
  list_visible-IsConsistent, accounts_list_all-IsConsistent,
}
use billtracker_plugin.Models.Consistent.Instances.{
  mark_paid-IsConsistent, list_upcoming_unpaid-IsConsistent, list_all_for_settings-IsConsistent,
}
use billtracker_plugin.Handlers.Auth.{
  Answer, admits, forbidden, not_found, register, current_token, require_bearer_token,
}
use billtracker_plugin.Handlers.Events.{
  events, in_window, scan_uid, mark_scanned, mark_in, action, healthz,
}
use billtracker_plugin.Handlers.Forms.{Form, BillBootstrap, parse_date}
use billtracker_plugin.Handlers.Pages.{view}
use billtracker_plugin.Handlers.Pages.Table.{
  is_unconnected, unless_unconnected, build_settings_page_data, SettingsPageData,
}
use billtracker_plugin.Handlers.Settings.{Reply}
use billtracker_plugin.Handlers.Settings.Safe.{handle_settings_action-IsConsistent}
use billtracker_plugin.Config.{Config}
use billtracker_plugin.Connectors.{Registry}
use billtracker_plugin.Handlers.Bootstrap.Reconciled.{bootstrap_bills-IsConsistent}
use billtracker_plugin.Server.{
  Route, to_register, to_manifest, to_view, to_events, to_action, to_settings, to_healthz,
  to_version, no_route, other_method, Page, Visit, App, route_of, showing, or_500, act,
  settings_answer, settings_page, answer, serve, listed, parse_bills_bootstrap, start_bills,
}

abbrev Safe : {A : Type 0} → Exec A → Type 0
Safe m = Keeps IsConsistent m

register-IsConsistent :
    (gcm : Aead) (secret got raw : Bytes) (random : Option Bytes)
    → Safe (register gcm secret got raw random)
unfolding register
register-IsConsistent gcm secret got raw random =
    Keeps-if (same got secret) _ _
      (λ _.
        Keeps-attempt _ _ _ (Keeps-lift (encrypt gcm random (Hex.encode raw))) (λ _. Keeps-pure _)
          λ ciphertext.
            Keeps-attempt _ _ _ (settings_set-IsConsistent _ _) (λ _. Keeps-pure _)
              (λ _. Keeps-pure _))
      (λ _. Keeps-pure _)

current_token-IsConsistent : (gcm : Aead) → Safe (current_token gcm)
unfolding current_token
current_token-IsConsistent gcm =
    Keeps-attempt _ _ _ (settings_get-IsConsistent _ _) (λ _. Keeps-pure _) (λ _. Keeps-pure _)

guard-IsConsistent :
    (gcm : Aead) (authorization : Bytes) (h : Exec (Answer Page))
    → Safe h
    → Safe (require_bearer_token gcm authorization h)
unfolding require_bearer_token
guard-IsConsistent gcm authorization h safe =
    Keeps-bind _ _ (current_token-IsConsistent gcm) (λ token.
      Keeps-if (admits token authorization) h (pure forbidden) (λ _. safe) (λ _. Keeps-pure _))

in_window-IsConsistent : (from to : Option Date) → Safe (in_window from to)
in_window-IsConsistent none to = Keeps-pure _
in_window-IsConsistent (some from) none = Keeps-pure _
in_window-IsConsistent (some from) (some to) =
    Keeps-attempt _ _ _ (list_upcoming_unpaid-IsConsistent to) (λ _. Keeps-pure _)
      (λ _. Keeps-pure _)

events-IsConsistent : (from to : Bytes) → Safe (events from to)
unfolding events
events-IsConsistent from to = in_window-IsConsistent (parse_date from) (parse_date to)

mark_scanned-IsConsistent : (now : Instant) (id : Option ℤ) → Safe (mark_scanned now id)
mark_scanned-IsConsistent now none = Keeps-pure _
mark_scanned-IsConsistent now (some id) =
    Keeps-attempt _ _ _ (mark_paid-IsConsistent now id) (λ _. Keeps-pure _) (λ _. Keeps-pure _)

mark_in-IsConsistent : (now : Instant) (uid : Option Bytes) → Safe (mark_in now uid)
mark_in-IsConsistent now none = Keeps-pure _
mark_in-IsConsistent now (some uid) = mark_scanned-IsConsistent now (scan_uid uid)

action-IsConsistent : (now : Instant) (id : Bytes) (uid : Option Bytes) → Safe (action now id uid)
unfolding action
action-IsConsistent now id uid =
    Keeps-if (same id (codes "mark_paid")) (mark_in now uid) (pure not_found)
      (λ _. mark_in-IsConsistent now uid) (λ _. Keeps-pure _)

view-IsConsistent : (clock : Clock) → Safe (view clock)
unfolding view
view-IsConsistent clock = Keeps-bind _ _ (list_upcoming_unpaid-IsConsistent _) λ instances.
    Keeps-attempt _ _ _ simplefin_get-IsConsistent (λ _. Keeps-pure _)
      λ conn. Keeps-attempt _ _ _ list_visible-IsConsistent (λ _. Keeps-pure _) (λ _. Keeps-pure _)

unless_unconnected-IsConsistent :
    (page : SettingsPageData) (e : Error) → Safe (unless_unconnected page e)
unless_unconnected-IsConsistent page e =
    Keeps-if (is_unconnected e) (pure page) (fail e) (λ _. Keeps-pure _) (λ _. Keeps-fail _)

settings_data-IsConsistent : (clock : Clock) → Safe (build_settings_page_data clock)
unfolding build_settings_page_data
settings_data-IsConsistent clock =
    Keeps-bind _ _ (list_all_for_settings-IsConsistent _ _) λ instances.
      Keeps-bind _ _ list_all-IsConsistent λ defs.
        Keeps-attempt _ _ _ simplefin_get-IsConsistent (unless_unconnected-IsConsistent _)
          λ conn. Keeps-bind _ _ accounts_list_all-IsConsistent (λ _. Keeps-pure _)

showing-IsConsistent :
    {A : Type 0} (f : A → Page) (m : Exec (Answer A)) → Safe m → Safe (showing f m)
showing-IsConsistent f m safe = Keeps-bind _ _ safe (λ _. Keeps-pure _)

or_500-IsConsistent : {A : Type 0} (f : A → Page) (m : Exec A) → Safe m → Safe (or_500 f m)
or_500-IsConsistent f m safe = Keeps-attempt _ _ _ safe (λ _. Keeps-pure _) (λ _. Keeps-pure _)

module _ (app : App) where
  settings_answer-IsConsistent : (reply : Option Reply) → Safe (settings_answer app reply)
  settings_answer-IsConsistent reply =
      or_500-IsConsistent _ _ (settings_data-IsConsistent app.clock)

  act-IsConsistent : (form : Option Form) → Safe (act app form)
  act-IsConsistent none = Keeps-pure _
  act-IsConsistent (some form) =
      handle_settings_action-IsConsistent app.clock app.cfg.bill_instance_lookahead_days app.gcm
        app.claim app.random form

  settings_page-IsConsistent :
      (posted : Bool) (form : Option Form) → Safe (settings_page app posted form)
  unfolding settings_page
  settings_page-IsConsistent true form =
      Keeps-attempt _ _ _ (act-IsConsistent form) (λ _. settings_answer-IsConsistent _)
        (λ _. settings_answer-IsConsistent _)
  settings_page-IsConsistent false form = settings_answer-IsConsistent none

  answer-IsConsistent : (r : Route) (v : Visit) → Safe (answer app r v)
  unfolding healthz
  answer-IsConsistent to_register v = showing-IsConsistent _ _ (register-IsConsistent _ _ _ _ _)
  answer-IsConsistent to_manifest v = guard-IsConsistent _ _ _ (Keeps-pure _)
  answer-IsConsistent to_view v =
      guard-IsConsistent _ _ _ (or_500-IsConsistent _ _ (view-IsConsistent app.clock))
  answer-IsConsistent to_events v =
      guard-IsConsistent _ _ _ (showing-IsConsistent _ _ (events-IsConsistent v.from v.to))
  answer-IsConsistent (to_action id) v =
      guard-IsConsistent _ _ _
        (showing-IsConsistent _ _ (action-IsConsistent app.clock.now id v.uid))
  answer-IsConsistent (to_settings posted) v =
      guard-IsConsistent _ _ _ (settings_page-IsConsistent posted v.form)
  answer-IsConsistent to_healthz v = showing-IsConsistent _ _ (Keeps-pure _)
  answer-IsConsistent to_version v = Keeps-pure _
  answer-IsConsistent no_route v = Keeps-pure _
  answer-IsConsistent other_method v = Keeps-pure _

  -- Whatever the request, the server leaves consistent tables consistent.
  pub serve-IsConsistent : (v : Visit) → Safe (serve app v)
  unfolding serve
  serve-IsConsistent v = answer-IsConsistent (route_of v.method v.path) v

module _ (parse_json : Bytes → Option (List BillBootstrap)) (read_file : Bytes → Option Bytes)
    (gcm : Aead) (random : Bytes → Option Bytes) (registry : Registry) (clock : Clock)
    (cfg : Config) where
  listed-IsConsistent :
      (entries : Option (List BillBootstrap))
      → Safe (listed parse_json read_file gcm random registry clock cfg entries)
  listed-IsConsistent none = Keeps-pure _
  listed-IsConsistent (some entries) =
      bootstrap_bills-IsConsistent read_file gcm random registry clock
        cfg.vendor_refresh_interval_minutes cfg.bill_instance_lookahead_days entries

  pub start_bills-IsConsistent :
      (raw : Option Bytes)
      → Safe (start_bills parse_json read_file gcm random registry clock cfg raw)
  unfolding start_bills
  start_bills-IsConsistent none = Keeps-pure _
  start_bills-IsConsistent (some raw) = listed-IsConsistent (parse_bills_bootstrap parse_json raw)
