-- ===== src/Crypto/Hex.antt =====
-- Go's encoding/hex, as the program uses it on keys and on stored tokens.
use billtracker_plugin.Base.{
  ℕ, ◌+◌, ◌-◌, ◌*◌, ◌/◌, ◌%◌, ◌<◌, ◌≡◌, refl, ap, ◌&&◌, Option, none, some, [], ◌∷◌, Bytes, leb,
  ltb, if◌then◌else◌, arith, All,
}

hex_digit : ℕ → ℕ
hex_digit n = if ltb n 10 then b'0' + n else b'a' + n - 10

digit_value : ℕ → Option ℕ
digit_value c =
    if leb b'0' c && leb c b'9'
    then some (c - b'0')
    else if leb b'a' c && leb c b'f'
    then some (c - b'a' + 10)
    else if leb b'A' c && leb c b'F'
    then some (c - b'A' + 10)
    else none

-- `hex.EncodeToString`.
unfoldable pub encode : Bytes → Bytes
unfolding hex_digit
encode [] = []
encode (b ∷ bs) = hex_digit (b / 16) ∷ hex_digit (b % 16) ∷ encode bs

abbrev joined : Option ℕ → Option ℕ → Option Bytes → Option Bytes
joined (some hi) (some lo) (some rest) = some ((hi * 16 + lo) ∷ rest)
joined _ _ _ = none

-- `hex.DecodeString`.
unfoldable pub decode : Bytes → Option Bytes
unfolding digit_value
decode [] = some []
decode (c ∷ []) = none
decode (c ∷ d ∷ s) = joined (digit_value c) (digit_value d) (decode s)

digit_value-hex_digit : (n : ℕ) → n < 16 → digit_value (hex_digit n) ≡ some n
unfolding digit_value hex_digit
digit_value-hex_digit n h = ground arith

decode_step :
    (b : ℕ) (rest bs : Bytes)
    → b < 256
    → decode rest ≡ some bs
    → decode (hex_digit (b / 16) ∷ hex_digit (b % 16) ∷ rest) ≡ some (b ∷ bs)
decode_step b rest bs h e =
    unfold decode in
    rw
      (
        digit_value-hex_digit (b / 16) (omega arith),
        digit_value-hex_digit (b % 16) (omega arith),
        e,
      )
      (ap (λ n. some (n ∷ bs)) (omega arith))

-- Bytes that are written in hexadecimal are read back.
pub decode-encode : (bs : Bytes) → All (λ b. b < 256) bs → decode (encode bs) ≡ some bs
unfolding encode
decode-encode [] h = unfold decode in refl
decode-encode (b ∷ bs) h = decode_step b (encode bs) bs (omega (arith, h.0)) (decode-encode bs h.1)
