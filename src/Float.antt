-- ===== src/Float.antt =====
-- Go's `float64` as internal/handlers/view.go, settings.go and bootstrap.go use it: IEEE 754 doubles,
-- each operation rounded on its own to the nearest value, as the amd64 code of the images does.
pub mod Scan
pub mod Nearest
pub mod Steps
pub mod Cents
pub mod Parsed
pub mod Dollars
use billtracker_plugin.Base.{
  ℕ, zero, suc, ◌+◌, ◌-◌, ◌*◌, ◌/◌, ◌%◌, ◌^◌, Bool, true, false, [], ◌∷◌, ◌++◌, Bytes, codes, ltb,
  leb, ◌==◌, if◌then◌else◌,
}
use billtracker_plugin.Base.Int.{ℤ, pos, negsuc, neg_ℤ}
use billtracker_plugin.Base.Decimal.{decimal}

-- `finite neg n s` is n / 2 ^ s, or minus that.
pub data Float : Type 0 where
  finite : (neg : Bool) (num shift : ℕ) → Float
  infinite : (neg : Bool) → Float
  nan : Float

-- The whole number nearest to p / q, and the even one of two.
unfoldable pub nearest : ℕ → ℕ → ℕ
nearest p q =
    if ltb (2 * (p % q)) q
    then p / q
    else if ltb q (2 * (p % q))
    then p / q + 1
    else p / q + p / q % 2

-- The most binary places, at most `limit`, with which p / q takes no more than 53 digits.
unfoldable pub places : ℕ → ℕ → ℕ → ℕ
places zero p q = 0
places (suc limit) p q =
    let fewer = places limit p q in
    if ltb (p * 2 ^ suc limit) (2 ^ 53 * q) then suc limit else fewer

-- The binary digits of p / q beyond the first 53.
unfoldable pub dropped : ℕ → ℕ → ℕ → ℕ
dropped zero p q = 0
dropped (suc limit) p q =
    let fewer = dropped limit p q in if leb (2 ^ 53 * (2 ^ limit * q)) p then suc limit else fewer

abbrev pub at_places : Bool → ℕ → ℕ → ℕ → Float
at_places neg p q s = finite neg (nearest (p * 2 ^ s) q) s

abbrev pub bounded : Bool → ℕ → Float
bounded neg n = if ltb n (2 ^ 1024) then finite neg n 0 else infinite neg

abbrev pub at_dropped : Bool → ℕ → ℕ → ℕ → Float
at_dropped neg p q j = bounded neg (nearest p (2 ^ j * q) * 2 ^ j)

-- The double nearest to p / q, or to minus that. No double has more than 1074 binary places, and one
-- whose digits end more than 971 places before the point is too large.
unfoldable pub of_quotient : Bool → ℕ → ℕ → Float
of_quotient neg p q =
    if ltb p (2 ^ 53 * q)
    then at_places neg p q (places 1074 p q)
    else if leb (2 ^ 1024 * q) p
    then infinite neg
    else at_dropped neg p q (dropped 971 p q)

-- `float64(n)`.
abbrev pub of_int : ℤ → Float
of_int (pos n) = of_quotient false n 1
of_int (negsuc n) = of_quotient true (n + 1) 1

-- `x * 100`.
abbrev pub times_100 : Float → Float
times_100 (finite neg n s) = of_quotient neg (n * 100) (2 ^ s)
times_100 x = x

-- `x / 100`.
abbrev pub over_100 : Float → Float
over_100 (finite neg n s) = of_quotient neg n (2 ^ s * 100)
over_100 x = x

-- `x + 0.5`.
abbrev pub plus_half : Float → Float
plus_half (finite false n s) = of_quotient false (2 * n + 2 ^ s) (2 * 2 ^ s)
plus_half (finite true n s) =
    if leb (2 * n) (2 ^ s)
    then of_quotient false (2 ^ s - 2 * n) (2 * 2 ^ s)
    else of_quotient true (2 * n - 2 ^ s) (2 * 2 ^ s)
plus_half x = x

abbrev pub least_int64 : ℤ
least_int64 = negsuc (2 ^ 63 - 1)

abbrev pub int_of_whole : Bool → ℕ → ℤ
int_of_whole neg n = if ltb n (2 ^ 63) then if neg then neg_ℤ (pos n) else pos n else least_int64

-- `int(x)`: towards zero, and what CVTTSD2SQ gives for a value that int64 does not hold.
abbrev pub to_int : Float → ℤ
to_int (finite neg n s) = int_of_whole neg (n / 2 ^ s)
to_int x = least_int64

-- `int(x*100 + 0.5)`.
unfoldable pub dollars_to_cents : Float → ℤ
dollars_to_cents x = to_int (plus_half (times_100 x))

abbrev pub two_places : ℕ → Bytes
two_places n = decimal (n / 100) ++ b'.' ∷ (b'0' + n / 10 % 10) ∷ (b'0' + n % 10) ∷ []

-- `%.2f`.
abbrev pub fixed_2 : Float → Bytes
fixed_2 (finite false n s) = two_places (nearest (n * 100) (2 ^ s))
fixed_2 (finite true n s) = b'-' ∷ two_places (nearest (n * 100) (2 ^ s))
fixed_2 (infinite false) = codes "+Inf"
fixed_2 (infinite true) = codes "-Inf"
fixed_2 nan = codes "NaN"

-- `formatCentsPlain`.
unfoldable pub format_cents_plain : ℤ → Bytes
format_cents_plain cents = fixed_2 (over_100 (of_int cents))

-- `formatCents`.
unfoldable pub format_cents : ℤ → Bytes
format_cents cents = b'$' ∷ format_cents_plain cents
