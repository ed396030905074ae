-- ===== src/Handlers/Settings/Connecting.antt =====
-- Connecting SimpleFIN: from the setup token in the form to the stored connection.
use billtracker_plugin.Base.{
  ◌≡◌, refl, suc, Bool, true, false, Option, some, [], ◌∷◌, Bytes, codes, is_empty, trim_space,
  length,
}
use billtracker_plugin.Base.Int.{ℤ}
use billtracker_plugin.Errors.{Result, ok}
use billtracker_plugin.Clock.{Clock}
use billtracker_plugin.Crypto.{Aead, encrypt, decrypt, decrypt-encrypt}
use billtracker_plugin.Models.Rows.{SimpleFinConnection, Tables}
use billtracker_plugin.Models.Database.{attempt, lift, pure, statement, transaction, ◌>>=◌}
use billtracker_plugin.Models.Database.Quiet.{quiet}
use billtracker_plugin.Models.SimpleFin
use billtracker_plugin.Models.SimpleFin.{new_connection}
use billtracker_plugin.SimpleFin.{
  Url, Request, Response, is_secure, claim_request, claim_setup_token,
}
use billtracker_plugin.Handlers.Forms.{Form}
use billtracker_plugin.Handlers.Settings.{refreshing, connect_simplefin}

-- An exchange of a setup token with the bridge that went well.
pub record Claim (insecure : Bool) (parse : Bytes → Option Url)
    (base64_decode : Bytes → Option Bytes) (send : Request → Result Response)
    (token access_url : Bytes) : Type 0 where
  pub claim_url : Bytes
  pub decoded : base64_decode (trim_space token) ≡ some claim_url
  pub url : Url
  pub parsed : parse claim_url ≡ some url
  pub secure : is_secure insecure url ≡ true
  pub response : Response
  pub sent : send (claim_request insecure parse base64_decode send url) ≡ ok response
  pub status_ok : response.status ≡ 200
  pub access : trim_space response.body ≡ access_url
  pub access_parsed : Url
  pub access_is_url : parse access_url ≡ some access_parsed

claim_setup_token-Claim :
    (insecure : Bool) (parse : Bytes → Option Url) (base64_decode : Bytes → Option Bytes)
    (send : Request → Result Response) (token access_url : Bytes)
    → Claim insecure parse base64_decode send token access_url
    → claim_setup_token insecure parse base64_decode send token ≡ ok access_url
unfolding claim_setup_token
claim_setup_token-Claim insecure parse base64_decode send token access_url c =
    rw (c.decoded, c.parsed, c.secure, c.sent, c.status_ok, c.access, c.access_is_url)

abbrev connected : Clock → Bytes → Tables → Tables
connected clock encrypted t = record t {
  simplefin_connections = new_connection t.next_simplefin clock.now encrypted ∷ [];
  next_simplefin = suc t.next_simplefin;
}

connect-quiet :
    (clock : Clock) (encrypted : Bytes) (t : Tables)
    → SimpleFin.connect clock.now encrypted (quiet t) ≡ (ok tt, quiet (connected clock encrypted t))
unfolding SimpleFin.connect SimpleFin.begin_or_commit SimpleFin.disconnect
    SimpleFin.insert_connection transaction statement ◌>>=◌ attempt
connect-quiet clock encrypted t = refl

module _ (clock : Clock) (lookahead_days : ℤ) (gcm : Aead) (insecure : Bool)
    (parse : Bytes → Option Url) (base64_decode : Bytes → Option Bytes)
    (send : Request → Result Response) where
  abbrev pub claim : Bytes → Result Bytes
  claim = claim_setup_token insecure parse base64_decode send

  connect_simplefin-quiet :
      (form : Form) (access_url nonce encrypted : Bytes) (t : Tables)
      → is_empty (trim_space (form (codes "setup_token"))) ≡ false
      → claim (trim_space (form (codes "setup_token"))) ≡ ok access_url
      → encrypt gcm (some nonce) access_url ≡ ok encrypted
      → connect_simplefin clock lookahead_days gcm claim (some nonce) form (quiet t)
        ≡ (ok refreshing, quiet (connected clock encrypted t))
  unfolding connect_simplefin attempt lift pure
  connect_simplefin-quiet form access_url nonce encrypted t given claimed sealed =
      rw (given, claimed, sealed, connect-quiet clock encrypted t)

  -- A setup token from the form that is not blank and that the bridge exchanges for an access URL,
  -- with an encryption of that URL under a nonce of the right size, on a database that fails nothing:
  -- the action answers that balances are being refreshed, just one connection is stored, and what it
  -- holds is decrypted to this access URL.
  pub connect_simplefin_opens :
      (form : Form) (access_url nonce encrypted : Bytes) (t : Tables)
      → is_empty (trim_space (form (codes "setup_token"))) ≡ false
      → Claim insecure parse base64_decode send (trim_space (form (codes "setup_token"))) access_url
      → length nonce ≡ gcm.nonce_size
      → encrypt gcm (some nonce) access_url ≡ ok encrypted
      → let (reply, after) =
          connect_simplefin clock lookahead_days gcm claim (some nonce) form (quiet t) in
        (reply ≡ ok refreshing)
        × (conn : SimpleFinConnection) × (after.tables.simplefin_connections ≡ conn ∷ [])
        × (decrypt gcm conn.encrypted_access_url ≡ ok access_url)
  connect_simplefin_opens form access_url nonce encrypted t given exchanged size sealed =
      rw
        (connect_simplefin-quiet form access_url nonce encrypted t given
          (claim_setup_token-Claim insecure parse base64_decode send _ access_url exchanged) sealed)
        (
          refl,
          new_connection t.next_simplefin clock.now encrypted,
          refl,
          decrypt-encrypt gcm nonce access_url encrypted size sealed,
        )
