-- ===== src/Crypto.antt =====
-- internal/util/crypto.go: `Encryptor`. AES-GCM is Go's crypto library, a parameter here.
pub mod Hex
use billtracker_plugin.Base.{
  ℕ, ◌+◌, ◌≤◌, ◌<◌, ◌≡◌, refl, ap, ◌∙◌, subst, Bool, true, false, Option, none, some, List, [], ◌∷◌,
  ◌++◌, Bytes, length, length-append, take, drop, take-append, drop-append, ltb, ◌==◌,
  if◌then◌else◌, arith,
}
use billtracker_plugin.Errors.{
  Error, Result, ok, err, nonce_failed, ciphertext_too_short, open_failed, key_not_hex,
  key_not_32_bytes,
}

-- `cipher.AEAD` under a key, as crypto/cipher documents it: `Open` gives back what `Seal` sealed
-- under the same nonce.
pub record Aead : Type 0 where
  pub nonce_size : ℕ
  pub seal : Bytes → Bytes → Bytes
  pub unseal : Bytes → Bytes → Option Bytes
  pub unseal-seal :
      (nonce plaintext : Bytes)
      → length nonce ≡ nonce_size
      → unseal nonce (seal nonce plaintext) ≡ some plaintext

-- `Encrypt`, over the nonce that the random reader gave, if it did.
unfoldable pub encrypt : Aead → Option Bytes → Bytes → Result Bytes
encrypt gcm none plaintext = err nonce_failed
encrypt gcm (some nonce) plaintext = ok (nonce ++ gcm.seal nonce plaintext)

abbrev opened : Option Bytes → Result Bytes
opened none = err open_failed
opened (some plaintext) = ok plaintext

-- `Decrypt`.
unfoldable pub decrypt : Aead → Bytes → Result Bytes
decrypt gcm stored =
    if ltb (length stored) gcm.nonce_size
    then err ciphertext_too_short
    else opened (gcm.unseal (take gcm.nonce_size stored) (drop gcm.nonce_size stored))

long_enough : (nonce sealed : Bytes) → ltb (length (nonce ++ sealed)) (length nonce) ≡ false
long_enough nonce sealed = ground (arith, length-append nonce sealed)

-- A nonce of the right size is cut off what follows it.
cut_at :
    (n : ℕ) (unseal : Bytes → Bytes → Option Bytes) (nonce sealed : Bytes)
    → length nonce ≡ n
    → (if ltb (length (nonce ++ sealed)) n
        then err ciphertext_too_short
        else opened (unseal (take n (nonce ++ sealed)) (drop n (nonce ++ sealed))))
      ≡ opened (unseal nonce sealed)
cut_at n unseal nonce sealed size =
    subst
      (λ n.
        (if ltb (length (nonce ++ sealed)) n
          then err ciphertext_too_short
          else opened (unseal (take n (nonce ++ sealed)) (drop n (nonce ++ sealed))))
        ≡ opened (unseal nonce sealed))
      size (rw (long_enough nonce sealed, take-append nonce sealed, drop-append nonce sealed))

decrypt-sealed :
    (gcm : Aead) (nonce plaintext : Bytes)
    → length nonce ≡ gcm.nonce_size
    → decrypt gcm (nonce ++ gcm.seal nonce plaintext) ≡ ok plaintext
unfolding decrypt
decrypt-sealed gcm nonce plaintext size =
    cut_at gcm.nonce_size gcm.unseal nonce (gcm.seal nonce plaintext) size
    ∙ ap opened (gcm.unseal-seal nonce plaintext size)

-- What was encrypted under a nonce of the right size is decrypted to itself.
pub decrypt-encrypt :
    (gcm : Aead) (nonce plaintext stored : Bytes)
    → length nonce ≡ gcm.nonce_size
    → encrypt gcm (some nonce) plaintext ≡ ok stored
    → decrypt gcm stored ≡ ok plaintext
unfolding encrypt
decrypt-encrypt gcm nonce plaintext stored size e =
    let is : nonce ++ gcm.seal nonce plaintext ≡ stored = cc in
    rw (← is) (decrypt-sealed gcm nonce plaintext size)

abbrev with_key : (Bytes → Aead) → Option Bytes → Result Aead
with_key aes none = err key_not_hex
with_key aes (some key) = if length key == 32 then ok (aes key) else err key_not_32_bytes

-- `NewEncryptor`; `aes` is AES-GCM under a key, which takes every key of 32 bytes.
unfoldable pub new_encryptor : (Bytes → Aead) → Bytes → Result Aead
new_encryptor aes hex_key = with_key aes (Hex.decode hex_key)
