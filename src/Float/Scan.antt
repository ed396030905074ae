-- ===== src/Float/Scan.antt =====
-- Go's `strconv.ParseFloat`, which `parseBillForm` of internal/handlers/settings.go reads an amount
-- with: decimal and hexadecimal numbers, and the names of the values that are no numbers.
use billtracker_plugin.Base.{
  ℕ, ◌+◌, ◌-◌, ◌*◌, ◌^◌, Bool, true, false, not, ◌&&◌, ◌||◌, Option, none, some, [], ◌∷◌, map,
  Bytes, codes, same, ltb, leb, ◌==◌, if◌then◌else◌, exists,
}
use billtracker_plugin.Base.Int.{ℤ, pos, pos_part, neg_part, neg_ℤ}
use billtracker_plugin.Base.Atoi.{is_digit}
use billtracker_plugin.Float.{Float, infinite, nan, of_quotient, dollars_to_cents}

abbrev pub lower : ℕ → ℕ
lower c = if leb b'A' c && leb c b'Z' then c + 32 else c

abbrev pub digit_value : Bool → ℕ → Option ℕ
digit_value hex c =
    if is_digit c
    then some (c - b'0')
    else if hex && leb b'a' (lower c) && leb (lower c) b'f'
    then some (lower c - b'a' + 10)
    else none

-- What was read up to some place: the digits as one number, how many of them stand behind the point,
-- and whether a digit and the point were there.
pub record Scan : Type 0 where
  pub value : ℕ
  pub behind : ℕ
  pub has_digits : Bool
  pub has_dot : Bool

abbrev pub with_digit : Bool → Scan → Option ℕ → Option Scan
with_digit hex scan none = none
with_digit hex scan (some d) = some (record {
  value = scan.value * (if hex then 16 else 10) + d;
  behind = if scan.has_dot then scan.behind + 1 else scan.behind;
  has_digits = true;
  has_dot = scan.has_dot;
})

-- The loop of `readFloat`, at one byte; `none` leaves it.
abbrev pub next : Bool → Scan → ℕ → Option Scan
next hex scan c =
    if c == b'_'
    then some scan
    else if c == b'.'
    then if scan.has_dot then none else some (record scan { has_dot = true })
    else with_digit hex scan (digit_value hex c)

unfoldable pub mantissa : Bool → Scan → Bytes → Scan × Bytes
mantissa hex scan [] = (scan, [])
mantissa hex scan (c ∷ s) = elim (next hex scan c) [
  | none ↦ (scan, c ∷ s)
  | some after ↦ mantissa hex after s
]

abbrev pub power_with : ℕ → ℕ → ℕ
power_with e c = if is_digit c && ltb e 10_000 then e * 10 + (c - b'0') else e

-- The digits of an exponent, which is no longer counted up from 10000 on.
unfoldable pub power_from : ℕ → Bytes → Option ℕ
power_from e [] = some e
power_from e (c ∷ s) =
    let rest = power_from (power_with e c) s in if c == b'_' || is_digit c then rest else none

abbrev pub signed_power : Bool → Option ℕ → Option ℤ
signed_power neg none = none
signed_power neg (some e) = some (if neg then neg_ℤ (pos e) else pos e)

abbrev pub power : Bool → Bytes → Option ℤ
power neg [] = none
power neg (c ∷ s) = if is_digit c then signed_power neg (power_from 0 (c ∷ s)) else none

abbrev pub after_letter : Bytes → Option ℤ
after_letter [] = none
after_letter (c ∷ s) =
    if c == b'+' then power false s else if c == b'-' then power true s else power false (c ∷ s)

-- What stands behind the digits; a hexadecimal number has to have an exponent.
unfoldable pub exponent : Bool → Bytes → Option ℤ
exponent hex [] = if hex then none else some (pos 0)
exponent hex (c ∷ s) = if lower c == (if hex then b'p' else b'e') then after_letter s else none

-- Too large a number is an error.
abbrev pub in_range : Float → Option Float
in_range (infinite neg) = none
in_range x = some x

abbrev pub value_of : Bool → Bool → Scan → ℤ → Float
value_of neg hex scan e =
    if hex
    then of_quotient neg (scan.value * 2 ^ pos_part e) (16 ^ scan.behind * 2 ^ neg_part e)
    else of_quotient neg (scan.value * 10 ^ pos_part e) (10 ^ scan.behind * 10 ^ neg_part e)

abbrev pub with_exponent : Bool → Bool → Scan → Option ℤ → Option Float
with_exponent neg hex scan none = none
with_exponent neg hex scan (some e) = in_range (value_of neg hex scan e)

abbrev pub finished : Bool → Bool → Scan × Bytes → Option Float
finished neg hex (scan, rest) =
    if scan.has_digits then with_exponent neg hex scan (exponent hex rest) else none

abbrev pub nothing_read : Scan
nothing_read = record { value = 0; behind = 0; has_digits = false; has_dot = false }

abbrev pub of_digits : Bool → Bytes → Option Float
of_digits neg (z ∷ x ∷ c ∷ s) =
    if z == b'0' && lower x == b'x'
    then finished neg true (mantissa true nothing_read (c ∷ s))
    else finished neg false (mantissa false nothing_read (z ∷ x ∷ c ∷ s))
of_digits neg s = finished neg false (mantissa false nothing_read s)

abbrev pub of_number : Bytes → Option Float
of_number [] = none
of_number (c ∷ s) =
    if c == b'+'
    then of_digits false s
    else if c == b'-'
    then of_digits true s
    else of_digits false (c ∷ s)

-- The last byte that `underscoreOK` saw.
pub data Seen : Type 0 where
  nothing_yet : Seen
  digit : Seen
  underscore : Seen
  other : Seen

-- Underscores stand between digits; `none` is a refusal.
abbrev pub see : Bool → Seen → ℕ → Option Seen
see hex seen c =
    if is_digit c || hex && leb b'a' (lower c) && leb (lower c) b'f'
    then some digit
    else if c == b'_'
    then elim seen [ digit ↦ some underscore | _ ↦ none ]
    else elim seen [ underscore ↦ none | _ ↦ some other ]

unfoldable pub underscores_between : Bool → Seen → Bytes → Bool
underscores_between hex underscore [] = false
underscores_between hex seen [] = true
underscores_between hex seen (c ∷ s) = elim (see hex seen c) [
  | none ↦ false
  | some after ↦ underscores_between hex after s
]

abbrev pub behind_sign : Bytes → Bytes
behind_sign [] = []
behind_sign (c ∷ s) = if c == b'+' || c == b'-' then s else c ∷ s

-- The base prefix counts as a digit.
abbrev pub underscores_behind : Bytes → Bool
underscores_behind (z ∷ x ∷ s) =
    if z == b'0' && lower x == b'x'
    then underscores_between true digit s
    else underscores_between false nothing_yet (z ∷ x ∷ s)
underscores_behind s = underscores_between false nothing_yet s

abbrev pub underscore_ok : Bytes → Bool
underscore_ok s = not (exists (λ c. c == b'_') s) || underscores_behind (behind_sign s)

-- The names of the values that are no numbers, in letters of either case.
abbrev pub special : Bytes → Option Float
special s =
    if same s (codes "inf")
      || same s (codes "+inf")
      || same s (codes "infinity")
      || same s (codes "+infinity")
    then some (infinite false)
    else if same s (codes "-inf") || same s (codes "-infinity")
    then some (infinite true)
    else if same s (codes "nan")
    then some nan
    else none

abbrev pub or_number : Bytes → Option Float → Option Float
or_number s none = if underscore_ok s then of_number s else none
or_number s x = x

-- `strconv.ParseFloat(s, 64)`; `none` is an error.
unfoldable pub parse_float : Bytes → Option Float
parse_float s = or_number s (special (map lower s))

abbrev pub made_cents : Option Float → Option ℤ
made_cents none = none
made_cents (some x) = some (dollars_to_cents x)

-- What `parseBillForm` makes of an amount.
unfoldable pub cents_of : Bytes → Option ℤ
cents_of text = made_cents (parse_float text)
