-- ===== src/Server/Guarded.antt =====
-- Which requests are served without the token.
use billtracker_plugin.Base.{
  ◌≡◌, refl, ◌∙◌, ◌⊎◌, inl, inr, Bool, true, false, ◌&&◌, ◌||◌, Option, List, [], ◌∷◌, Bytes, codes,
  same, arith,
}
use billtracker_plugin.Errors.{Result, ok}
use billtracker_plugin.Models.Database.{Db, Exec, pure}
use billtracker_plugin.Models.Database.Quiet.{bind_ok}
use billtracker_plugin.Handlers.Auth.{
  Answer, forbidden, not_found, method_not_allowed, admits, current_token, require_bearer_token,
}
use billtracker_plugin.Server.{
  Visit, Route, to_register, to_manifest, to_view, to_events, to_action, to_settings, to_healthz,
  to_version, no_route, other_method, is_get, is_post, route_of, Page, App, answer, serve,
}

-- The requests that need no token: POST /register, and GET and HEAD of /healthz and /version.
abbrev pub is_open : Bytes → List Bytes → Bool
is_open method (s ∷ []) =
    (is_post method && same s (codes "register"))
    || (is_get method && (same s (codes "healthz") || same s (codes "version")))
is_open method _ = false

abbrev open_route : Route → Bool
open_route to_register = true
open_route to_healthz = true
open_route to_version = true
open_route _ = false

route_of_closed :
    (method : Bytes) (path : List Bytes)
    → is_open method path ≡ false
    → open_route (route_of method path) ≡ false
unfolding route_of
route_of_closed method [] h = refl
route_of_closed method (s ∷ []) h = ground arith
route_of_closed method (s ∷ id ∷ []) h = ground arith
route_of_closed method (s ∷ id ∷ t ∷ ts) h = refl

-- How a refused request ends: with 403 once the token was looked up, or with 404 or 405 at once.
abbrev pub Refused : Db → Db → Result (Answer Page) × Db → Type 0
Refused db looked_up r =
    (r ≡ (ok forbidden, looked_up)) ⊎ ((r ≡ (ok not_found, db)) ⊎ (r ≡ (ok method_not_allowed, db)))

module _ (app : App) (v : Visit) (db looked_up : Db) (o : Option Bytes)
    (token : current_token app.gcm db ≡ (ok o, looked_up))
    (not_admitted : admits o v.authorization ≡ false) where
  guard_refuses :
      (h : Exec (Answer Page))
      → require_bearer_token app.gcm v.authorization h db ≡ (ok forbidden, looked_up)
  unfolding require_bearer_token pure
  guard_refuses h = bind_ok _ _ db looked_up o token ∙ rw not_admitted

  answer_refuses : (r : Route) → open_route r ≡ false → Refused db looked_up (answer app r v db)
  unfolding pure
  answer_refuses to_register e = cc
  answer_refuses to_manifest e = inl (guard_refuses _)
  answer_refuses to_view e = inl (guard_refuses _)
  answer_refuses to_events e = inl (guard_refuses _)
  answer_refuses (to_action id) e = inl (guard_refuses _)
  answer_refuses (to_settings posted) e = inl (guard_refuses _)
  answer_refuses to_healthz e = cc
  answer_refuses to_version e = cc
  answer_refuses no_route e = inr (inl refl)
  answer_refuses other_method e = inr (inr refl)

  -- Every request but POST /register and GET or HEAD of /healthz and /version, whose Authorization
  -- header does not carry the current token, is answered with 403, 404 or 405, and no handler runs:
  -- the database is left as the look at the stored token, or nothing at all, left it.
  pub serve_refuses : is_open v.method v.path ≡ false → Refused db looked_up (serve app v db)
  unfolding serve
  serve_refuses closed =
      answer_refuses (route_of v.method v.path) (route_of_closed v.method v.path closed)
