-- ===== src/Server.antt =====
-- cmd/server/main.go: the routes, each with its handler and the guard around it, and what happens
-- before the server listens. Handlers' pages are given by what they show. `Connect`, `Migrate` and
-- the templates either work or end the process, and are left out.
pub mod Guarded
pub mod Safe
pub mod Start
use billtracker_plugin.Base.{
  Bool, true, false, not, ◌&&◌, ◌||◌, Option, none, some, List, [], ◌∷◌, Bytes, codes, same,
  is_empty, if◌then◌else◌,
}
use billtracker_plugin.Base.Int.{ℤ}
use billtracker_plugin.Errors.{Result, ok, err, bad_form}
use billtracker_plugin.Clock.{Clock}
use billtracker_plugin.Crypto.{Aead}
use billtracker_plugin.Connectors.{Registry}
use billtracker_plugin.Config.{Config}
use billtracker_plugin.Models.Database.{Exec, pure, attempt, ◌>>=◌}
use billtracker_plugin.Scheduler.{done}
use billtracker_plugin.Release.{Info, VersionResponse, get_version}
use billtracker_plugin.Handlers.Auth.{
  Answer, bad_request, unauthorized, forbidden, not_found, method_not_allowed, server_error, served,
  require_bearer_token,
}
use billtracker_plugin.Handlers.Auth
use billtracker_plugin.Handlers.Events.{EventOut, events, action, healthz}
use billtracker_plugin.Handlers.Forms.{Form, BillBootstrap}
use billtracker_plugin.Handlers.Manifest.{Manifest, manifest}
use billtracker_plugin.Handlers.Pages.{ViewData, view}
use billtracker_plugin.Handlers.Pages.Table.{SettingsPageData, build_settings_page_data}
use billtracker_plugin.Handlers.Settings.{Reply, refused, handle_settings_action}
use billtracker_plugin.Handlers.Bootstrap.{bootstrap_bills}

-- A request, as far as a handler reads it: the segments of its path, which is clean and does not
-- end in a slash, two headers, two query parameters, the form and the uid in the body.
pub record Visit : Type 0 where
  pub method : Bytes
  pub path : List Bytes
  pub authorization : Bytes
  pub connection_secret : Bytes
  pub from : Bytes
  pub to : Bytes
  pub form : Option Form
  pub uid : Option Bytes

-- The handlers that `mux.HandleFunc` registers.
pub data Route : Type 0 where
  to_register to_manifest to_view to_events : Route
  to_action : Bytes → Route
  to_settings : Bool → Route
  to_healthz to_version : Route
  no_route other_method : Route

abbrev pub is_get : Bytes → Bool
is_get method = same method (codes "GET") || same method (codes "HEAD")

abbrev pub is_post : Bytes → Bool
is_post method = same method (codes "POST")

abbrev when : Bool → Route → Route
when allowed route = if allowed then route else other_method

abbrev settings_route : Bytes → Route
settings_route method =
    if is_get method then to_settings false else when (is_post method) (to_settings true)

abbrev one_segment : Bytes → Bytes → Route
one_segment method s =
    if same s (codes "register")
    then when (is_post method) to_register
    else if same s (codes "manifest")
    then when (is_get method) to_manifest
    else if same s (codes "events")
    then when (is_get method) to_events
    else if same s (codes "settings")
    then settings_route method
    else if same s (codes "healthz")
    then when (is_get method) to_healthz
    else if same s (codes "version")
    then when (is_get method) to_version
    else no_route

abbrev two_segments : Bytes → Bytes → Bytes → Route
two_segments method s id =
    if is_empty id
    then no_route
    else if same s (codes "view")
    then when (is_get method) to_view
    else if same s (codes "actions")
    then when (is_post method) (to_action id)
    else no_route

-- The patterns of the `http.ServeMux`; one for GET takes HEAD too.
unfoldable pub route_of : Bytes → List Bytes → Route
route_of method (s ∷ []) = one_segment method s
route_of method (s ∷ id ∷ []) = two_segments method s id
route_of method _ = no_route

-- What a handler shows.
pub data Page : Type 0 where
  token_issued : Bytes → Page
  manifest_page : Manifest → Page
  view_page : ViewData → Page
  event_list : List EventOut → Page
  action_done healthy : Page
  settings_shown : Option Reply → SettingsPageData → Page
  version_page : VersionResponse → Page

abbrev answer_map : {A B : Type 0} → (A → B) → Answer A → Answer B
answer_map f bad_request = bad_request
answer_map f unauthorized = unauthorized
answer_map f forbidden = forbidden
answer_map f not_found = not_found
answer_map f method_not_allowed = method_not_allowed
answer_map f server_error = server_error
answer_map f (served a) = served (f a)

abbrev pub showing : {A : Type 0} → (A → Page) → Exec (Answer A) → Exec (Answer Page)
showing f m = m >>= λ a. pure (answer_map f a)

-- A query whose error is answered with status 500.
abbrev pub or_500 : {A : Type 0} → (A → Page) → Exec A → Exec (Answer Page)
or_500 f m = attempt m (λ _. pure server_error) λ a. pure (served (f a))

-- The plugin while it serves a request: its configuration, the time, and what the outside gives.
pub record App : Type 0 where
  pub cfg : Config
  pub gcm : Aead
  pub version : Bytes
  pub clock : Clock
  pub claim : Bytes → Result Bytes
  pub random : Option Bytes
  pub raw_token : Bytes
  pub releases : Option Info

module _ (app : App) where
  abbrev settings_answer : Option Reply → Exec (Answer Page)
  settings_answer reply = or_500 (settings_shown reply) (build_settings_page_data app.clock)

  abbrev act : Option Form → Exec Reply
  act none = pure (refused bad_form)
  act (some form) =
      handle_settings_action app.clock app.cfg.bill_instance_lookahead_days app.gcm app.claim
        app.random form

  -- `SettingsPage`, for a POST and for another method.
  unfoldable pub settings_page : Bool → Option Form → Exec (Answer Page)
  settings_page true form =
      attempt (act form) (λ e. settings_answer (some (refused e))) (λ r. settings_answer (some r))
  settings_page false form = settings_answer none

  abbrev pub auth : Visit → Exec (Answer Page) → Exec (Answer Page)
  auth v h = require_bearer_token app.gcm v.authorization h

  abbrev pub answer : Route → Visit → Exec (Answer Page)
  answer to_register v = showing token_issued (
      Auth.register app.gcm app.cfg.plugin_connection_secret v.connection_secret app.raw_token
        app.random)
  answer to_manifest v = auth v (pure (served (manifest_page (manifest app.version))))
  answer to_view v = auth v (or_500 view_page (view app.clock))
  answer to_events v = auth v (showing event_list (events v.from v.to))
  answer (to_action id) v = auth v (showing (λ _. action_done) (action app.clock.now id v.uid))
  answer (to_settings posted) v = auth v (settings_page posted v.form)
  answer to_healthz v = showing (λ _. healthy) healthz
  answer to_version v = pure (served (version_page (get_version app.version app.releases)))
  answer no_route v = pure not_found
  answer other_method v = pure method_not_allowed

  -- The server, for one request.
  unfoldable pub serve : Visit → Exec (Answer Page)
  serve v = answer (route_of v.method v.path) v

-- `parse_json` is `json.Unmarshal` of the file's text.
module _ (parse_json : Bytes → Option (List BillBootstrap)) where
  -- `ParseBillsBootstrap`.
  unfoldable pub parse_bills_bootstrap : Bytes → Option (List BillBootstrap)
  parse_bills_bootstrap raw = if is_empty raw then some [] else parse_json raw

  module _ (read_file : Bytes → Option Bytes) (gcm : Aead) (random : Bytes → Option Bytes)
      (registry : Registry) (clock : Clock) (cfg : Config) where
    abbrev listed : Option (List BillBootstrap) → Exec (Unit {0})
    listed none = done
    listed (some entries) =
        bootstrap_bills read_file gcm random registry clock cfg.vendor_refresh_interval_minutes
          cfg.bill_instance_lookahead_days entries

    -- `bootstrapBills`, over the text of bills.json: no file, and a file that cannot be read or
    -- parsed, leave the bills alone.
    unfoldable pub start_bills : Option Bytes → Exec (Unit {0})
    start_bills none = done
    start_bills (some raw) = listed (parse_bills_bootstrap raw)
