-- ===== src/Handlers/Auth.antt =====
-- internal/handlers/register.go and auth_middleware.go: the token that the plugin issues to the
-- dashboard, and the check of it on every other route.
use billtracker_plugin.Base.{
  Bool-cases, ◌⊎◌, inl, inr, ◌<◌, ◌≡◌, ◌≢◌, refl, Bool, true, false, Option, none, some, List, [],
  ◌∷◌, ◌++◌, Bytes, length, drop, All, codes, same, same_iff, same_refl, is_empty, cut_prefix,
  is_rest, is_rest-cut_prefix, if◌then◌else◌, arith,
}
use billtracker_plugin.Errors.{Result, ok, err}
use billtracker_plugin.Crypto.{Aead, encrypt, decrypt, decrypt-encrypt}
use billtracker_plugin.Crypto.Hex
use billtracker_plugin.Models.Rows.{Tables}
use billtracker_plugin.Models.Database.{Db, Exec, pure, lift, attempt, statement, ◌>>=◌}
use billtracker_plugin.Models.Database.Quiet.{quiet, bind_ok}
use billtracker_plugin.Models.Settings
use billtracker_plugin.Models.Settings.{lookup, insert, lookup-insert}

-- A handler's answer: the statuses 400, 401, 403, 404, 405 and 500, or what is served.
pub data Answer {ℓ} (A : Type ℓ) : Type ℓ where
  bad_request unauthorized forbidden not_found method_not_allowed server_error : Answer A
  served : A → Answer A

abbrev pub plugin_token_settings_key : Bytes
plugin_token_settings_key = codes "plugin_token"

abbrev pub bearer : Bytes
bearer = codes "Bearer "

abbrev plain_or_none : Result Bytes → Option Bytes
plain_or_none (err e) = none
plain_or_none (ok plaintext) = some plaintext

abbrev unseal_stored : Aead → Option Bytes → Option Bytes
unseal_stored gcm none = none
unseal_stored gcm (some ciphertext) = plain_or_none (decrypt gcm ciphertext)

-- What is stored, as a token.
abbrev pub token_of : Aead → Bytes → Option Bytes
token_of gcm stored = if is_empty stored then none else unseal_stored gcm (Hex.decode stored)

-- `currentToken`; `none` is `ok=false`.
unfoldable pub current_token : Aead → Exec (Option Bytes)
current_token gcm =
    attempt (Settings.get plugin_token_settings_key []) (λ _. pure none)
      λ stored. pure (token_of gcm stored)

abbrev pub admits : Option Bytes → Bytes → Bool
admits none authorization = false
admits (some token) authorization = is_rest token (cut_prefix authorization bearer)

-- `RequireBearerToken`, around a handler, over the Authorization header.
unfoldable pub require_bearer_token :
    {A : Type 0} → Aead → Bytes → Exec (Answer A) → Exec (Answer A)
require_bearer_token gcm authorization h =
    current_token gcm >>= λ token. if admits token authorization then h else pure forbidden

abbrev issue : Bytes → Bytes → Exec (Answer Bytes)
issue token ciphertext =
    attempt (Settings.set plugin_token_settings_key (Hex.encode ciphertext))
      (λ _. pure server_error) λ _. pure (served token)

-- `Register`, over the configured secret, the header that was sent, the 32 random bytes of the
-- token and what the random reader gives for the nonce.
unfoldable pub register : Aead → Bytes → Bytes → Bytes → Option Bytes → Exec (Answer Bytes)
register gcm secret got raw nonce =
    if same got secret
    then attempt (lift (encrypt gcm nonce (Hex.encode raw))) (λ _. pure server_error)
        (issue (Hex.encode raw))
    else pure unauthorized

-- The database as it is after one more statement was sent.
abbrev pub sent : Db → Db
sent db = record db { outages = drop 1 db.outages }

current_token_unset :
    (gcm : Aead) (t : Tables) (outages : List Bool)
    → lookup plugin_token_settings_key t.settings ≡ none
    → current_token gcm (record { tables = t; outages = outages })
      ≡ (ok none, sent (record { tables = t; outages = outages }))
unfolding current_token attempt pure statement Settings.get
current_token_unset gcm t [] unset = rw unset
current_token_unset gcm t (false ∷ rest) unset = rw unset
current_token_unset gcm t (true ∷ rest) unset = refl

-- Before the plugin has issued a token, every request on a guarded route is refused, with every
-- header and whatever the database does, and the handler does not run.
pub unregistered_refuses :
    {A : Type 0} (gcm : Aead) (authorization : Bytes) (h : Exec (Answer A)) (db : Db)
    → lookup plugin_token_settings_key db.tables.settings ≡ none
    → require_bearer_token gcm authorization h db ≡ (ok forbidden, sent db)
unfolding require_bearer_token pure
unregistered_refuses gcm authorization h db unset =
    bind_ok _ _ db (sent db) none (current_token_unset gcm db.tables db.outages unset)

sealed_nonempty :
    (gcm : Aead) (nonce text ciphertext : Bytes)
    → length nonce ≡ gcm.nonce_size
    → 0 < gcm.nonce_size
    → encrypt gcm (some nonce) text ≡ ok ciphertext
    → is_empty (Hex.encode ciphertext) ≡ false
unfolding encrypt Hex.encode
sealed_nonempty gcm [] text ciphertext size positive e = ground arith
sealed_nonempty gcm (b ∷ bs) text [] size positive e = cc
sealed_nonempty gcm (b ∷ bs) text (c ∷ cs) size positive e = refl

stored_token :
    (gcm : Aead) (raw nonce ciphertext : Bytes)
    → length nonce ≡ gcm.nonce_size
    → 0 < gcm.nonce_size
    → encrypt gcm (some nonce) (Hex.encode raw) ≡ ok ciphertext
    → All (λ b. b < 256) ciphertext
    → token_of gcm (Hex.encode ciphertext) ≡ some (Hex.encode raw)
stored_token gcm raw nonce ciphertext size positive sealed bytes = rw (
  sealed_nonempty gcm nonce (Hex.encode raw) ciphertext size positive sealed,
  Hex.decode-encode ciphertext bytes,
  decrypt-encrypt gcm nonce (Hex.encode raw) ciphertext size sealed,
)

-- The tables once a token was issued.
abbrev with_token : Bytes → Tables → Tables
with_token ciphertext t = record t {
  settings = insert plugin_token_settings_key (Hex.encode ciphertext) t.settings;
}

register-quiet :
    (gcm : Aead) (secret raw nonce ciphertext : Bytes) (t : Tables)
    → encrypt gcm (some nonce) (Hex.encode raw) ≡ ok ciphertext
    → register gcm secret secret raw (some nonce) (quiet t)
      ≡ (ok (served (Hex.encode raw)), quiet (with_token ciphertext t))
unfolding register attempt lift pure statement Settings.set
register-quiet gcm secret raw nonce ciphertext t sealed = rw (same_refl secret, sealed)

-- How a registration may end: refused for another secret, failed, or done. Only the last writes.
abbrev pub Registers :
    Aead → Bytes → Bytes → Bytes → Option Bytes → Tables → Result (Answer Bytes) × Db → Type 0
Registers gcm secret got raw random t after =
    ((after.0 ≡ ok unauthorized) × (got ≢ secret) × (after.1.tables ≡ t))
    ⊎ (((after.0 ≡ ok server_error) × (got ≡ secret) × (after.1.tables ≡ t))
        ⊎ ((ciphertext : Bytes) × (after.0 ≡ ok (served (Hex.encode raw)))
            × (got ≡ secret)
            × (encrypt gcm random (Hex.encode raw) ≡ ok ciphertext)
            × (after.1.tables ≡ with_token ciphertext t)))

other_secret : (got secret : Bytes) → same got secret ≡ false → got ≢ secret
other_secret got secret e is = ground (arith, same_iff got secret)

module _ (gcm : Aead) (secret got raw : Bytes) (random : Option Bytes) (t : Tables) where
  abbrev sealed_then : Result Bytes → Exec (Answer Bytes)
  sealed_then r = attempt (lift r) (λ _. pure server_error) (issue (Hex.encode raw))

  sealed_outcome :
      (right : got ≡ secret) (r : Result Bytes) (outages : List Bool)
      → encrypt gcm random (Hex.encode raw) ≡ r
      → Registers gcm secret got raw random t
          (sealed_then r (record { tables = t; outages = outages }))
  unfolding attempt lift pure statement Settings.set
  sealed_outcome right (err x) outages e = inr (inl (refl, right, refl))
  sealed_outcome right (ok c) [] e = inr (inr (c, refl, right, e, refl))
  sealed_outcome right (ok c) (false ∷ rest) e = inr (inr (c, refl, right, e, refl))
  sealed_outcome right (ok c) (true ∷ rest) e = inr (inl (refl, right, refl))

  -- `Register`, whatever the database fails, answers 401 to another connection secret and changes
  -- nothing, or answers 500 and changes nothing, or answers with the token and has stored its
  -- encryption, and nothing else, over the one before.
  pub register_outcome :
      (outages : List Bool)
      → Registers gcm secret got raw random t
          (register gcm secret got raw random (record { tables = t; outages = outages }))
  unfolding register pure
  register_outcome outages = elim (Bool-cases (same got secret)) [
    | inl e ↦ rw e (
        sealed_outcome ((same_iff got secret).0 e) (encrypt gcm random (Hex.encode raw)) outages
          refl)
    | inr e ↦ rw e (inl (refl, other_secret got secret e, refl))
  ]

current_token_issued :
    (gcm : Aead) (ciphertext token : Bytes) (t : Tables)
    → token_of gcm (Hex.encode ciphertext) ≡ some token
    → current_token gcm (quiet (with_token ciphertext t))
      ≡ (ok (some token), quiet (with_token ciphertext t))
unfolding current_token attempt pure statement Settings.get
current_token_issued gcm ciphertext token t is = rw (
  lookup-insert plugin_token_settings_key plugin_token_settings_key (Hex.encode ciphertext)
      t.settings,
  same_refl plugin_token_settings_key,
  is,
)

-- With the right secret, on a database that fails nothing, and for an encryption that gives bytes
-- under a nonce of the right size, which is not empty, `Register` answers with the token in
-- hexadecimal; in the state that it leaves, a guarded route runs its handler for the header
-- `Bearer ` and that token, and answers 403 to every other header.
pub registered_admits :
    {A : Type 0} (gcm : Aead) (secret raw nonce ciphertext authorization : Bytes)
    (h : Exec (Answer A)) (t : Tables)
    → length nonce ≡ gcm.nonce_size
    → 0 < gcm.nonce_size
    → encrypt gcm (some nonce) (Hex.encode raw) ≡ ok ciphertext
    → All (λ b. b < 256) ciphertext
    → let (answer, after) = register gcm secret secret raw (some nonce) (quiet t) in
      (answer ≡ ok (served (Hex.encode raw)))
      × (require_bearer_token gcm authorization h after
          ≡ (if same authorization (bearer ++ Hex.encode raw) then h else pure forbidden) after)
unfolding require_bearer_token
registered_admits gcm secret raw nonce ciphertext authorization h t size positive sealed bytes =
    rw
      (
        register-quiet gcm secret raw nonce ciphertext t sealed,
        ← is_rest-cut_prefix bearer authorization (Hex.encode raw),
      )
      (
        refl,
        bind_ok _ _ _ _ _ (
            current_token_issued gcm ciphertext (Hex.encode raw) t
              (stored_token gcm raw nonce ciphertext size positive sealed bytes)),
      )
